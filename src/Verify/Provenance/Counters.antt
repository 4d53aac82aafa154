-- ===== src/Verify/Provenance/Counters.antt =====
-- What the counters of `policyEventIndex` count.
use ao_covenant.Base.{
  ℕ, ◌+◌, String, Bool, not, ◌&&◌, List, [], ◌∷◌, ◌++◌, ◌≡◌, arith, ◌==◌, if◌then◌else◌,
}
use ao_covenant.Base.Dict.{Dict, lookup, insert, lookup-insert}
use ao_covenant.Run.Types.{Event}
use ao_covenant.Verify.Provenance.{
  PolicyEventsByKey, count_of, index_event, index_events, policy_event_index, legacy_key,
}

-- How many elements pass the test.
abbrev pub tally : (Event → Bool) → List Event → ℕ
tally test [] = 0
tally test (e ∷ events) = (if test e then 1 else 0) + tally test events

pub tally-append :
    (test : Event → Bool) (xs ys : List Event)
    → tally test (xs ++ ys) ≡ tally test xs + tally test ys
tally-append test [] ys = omega arith
tally-append test (x ∷ xs) ys = omega (arith, tally-append test xs ys)

-- The events that one entry of either map counts.
abbrev pub named : String → Event → Bool
named key e = e.type == "policy_decided" && not (e.decision_id == "") && e.decision_id == key

abbrev pub keyed : String → Event → Bool
keyed key e = e.type == "policy_decided" && e.decision_id == "" && legacy_key e == key

pub count_of-insert :
    (key k : String) (n : ℕ) (m : Dict ℕ)
    → count_of (insert key n m) k ≡ (if key == k then n else count_of m k)
unfolding count_of
count_of-insert key k n m = ground (arith, lookup-insert key k n m)

-- Each entry counts the events of its key, and `seen` more.
pub record Counts (index : PolicyEventsByKey) (events : List Event) : Type 0 where
  pub by_id : (key : String) → count_of index.by_decision_id key ≡ tally (named key) events
  pub by_key : (key : String) → count_of index.legacy key ≡ tally (keyed key) events

index_event-by_id :
    (index : PolicyEventsByKey) (e : Event) (key : String)
    → count_of (index_event index e).by_decision_id key
      ≡ count_of index.by_decision_id key + (if named key e then 1 else 0)
unfolding index_event
index_event-by_id index e key =
    let more =
      count_of-insert e.decision_id key (count_of index.by_decision_id e.decision_id + 1)
        index.by_decision_id in
    ground arith

index_event-by_key :
    (index : PolicyEventsByKey) (e : Event) (key : String)
    → count_of (index_event index e).legacy key
      ≡ count_of index.legacy key + (if keyed key e then 1 else 0)
unfolding index_event
index_event-by_key index e key =
    let more =
      count_of-insert (legacy_key e) key (count_of index.legacy (legacy_key e) + 1) index.legacy in
    ground arith

index_events-by_id :
    (index : PolicyEventsByKey) (events : List Event) (key : String)
    → count_of (index_events index events).by_decision_id key
      ≡ count_of index.by_decision_id key + tally (named key) events
unfolding index_events
index_events-by_id index [] key = omega arith
index_events-by_id index (e ∷ events) key =
    omega
      (arith, index_events-by_id (index_event index e) events key, index_event-by_id index e key)

index_events-by_key :
    (index : PolicyEventsByKey) (events : List Event) (key : String)
    → count_of (index_events index events).legacy key
      ≡ count_of index.legacy key + tally (keyed key) events
unfolding index_events
index_events-by_key index [] key = omega arith
index_events-by_key index (e ∷ events) key =
    omega
      (arith, index_events-by_key (index_event index e) events key, index_event-by_key index e key)

pub policy_event_index-Counts : (events : List Event) → Counts (policy_event_index events) events
unfolding count_of lookup
policy_event_index-Counts events = record {
  by_id = λ key.
      omega (arith, index_events-by_id (record { by_decision_id = []; legacy = [] }) events key);
  by_key = λ key.
      omega (arith, index_events-by_key (record { by_decision_id = []; legacy = [] }) events key);
}
