-- ===== src/Verify/Provenance/Decisions.antt =====
-- Each decision of the evidence has a ledger event of its own.
use ao_covenant.Base.{
  ◌+◌, ◌-◌, String, Bool, true, false, List, [], ◌∷◌, ◌++◌, ◌≡◌, ◌≢◌, ◌⊎◌, inl, inr, arith, refl,
  if◌then◌else◌, Bool-cases, ok, ap, eqb, subst,
}
use ao_covenant.Policy.Types.{Decision}
use ao_covenant.Run.Types.{Event}
use ao_covenant.Verify.Provenance.{
  PolicyEventsByKey, count_of, consume, consume_all, decision_key, legacy_key, decrement,
  policy_event_index,
}
use ao_covenant.Verify.Provenance.Counters.{
  tally, tally-append, named, keyed, Counts, count_of-insert, policy_event_index-Counts,
}

-- The policy event is for the decision: by its decision id or, where the event has none, by its
-- task, status and message.
abbrev pub Answers : Event → Decision → Type 0
Answers e d =
    (e.type ≡ "policy_decided")
    × (((e.decision_id ≢ "") × (e.decision_id ≡ d.decision_id))
        ⊎ ((e.decision_id ≡ "") × (legacy_key e ≡ decision_key d)))

-- Each decision takes an event that answers it, and the next ones choose among those left.
abbrev pub Matched : List Decision → List Event → Type 0
Matched [] events = Unit
Matched (d ∷ decisions) events =
    (before : List Event) × (e : Event) × (after : List Event) × (events ≡ (before ++ e ∷ after))
    × Answers e d
    × Matched decisions (before ++ after)

-- An element that passes the test, where the tally is positive.
tally-find :
    (test : Event → Bool) (events : List Event)
    → tally test events ≢ 0
    → (before : List Event) × (e : Event) × (after : List Event) × (events ≡ (before ++ e ∷ after))
      × (test e ≡ true)
tally-find test [] h = absurd (h refl)
tally-find test (x ∷ events) h = elim (Bool-cases (test x)) [
  | inl yes_test ↦ ([], x, events, refl, yes_test)
  | inr no_test ↦
      let (before, e, after, shape, passes) =
        tally-find test events (λ z. h (rw no_test (omega (arith, z)))) in
      (x ∷ before, e, after, ap (λ (es : List Event). x ∷ es) shape, passes)
]

tally-remove :
    (test : Event → Bool) (before : List Event) (e : Event) (after : List Event)
    → tally test (before ++ e ∷ after) ≡ tally test (before ++ after) + (if test e then 1 else 0)
tally-remove test before e after =
    omega (arith, tally-append test before (e ∷ after), tally-append test before after)

module _ (index : PolicyEventsByKey) (before : List Event) (e : Event) (after : List Event) where
  consume-by_id :
      (key : String)
      → Counts index (before ++ e ∷ after)
      → named key e ≡ true
      → Counts
          (record index { by_decision_id = decrement key index.by_decision_id })
          (before ++ after)
  consume-by_id key c h = record {
    by_id = λ k. ground (
      arith,
      c.by_id key,
      c.by_id k,
      tally-remove (named k) before e after,
      tally-remove (named key) before e after,
      count_of-insert key k (count_of index.by_decision_id key - 1) index.by_decision_id,
    );
    by_key = λ k. ground (arith, c.by_key k, tally-remove (keyed k) before e after);
  }

  consume-by_key :
      (key : String)
      → Counts index (before ++ e ∷ after)
      → keyed key e ≡ true
      → Counts (record index { legacy = decrement key index.legacy }) (before ++ after)
  consume-by_key key c h = record {
    by_id = λ k. ground (arith, c.by_id k, tally-remove (named k) before e after);
    by_key = λ k. ground (
      arith,
      c.by_key key,
      c.by_key k,
      tally-remove (keyed k) before e after,
      tally-remove (keyed key) before e after,
      count_of-insert key k (count_of index.legacy key - 1) index.legacy,
    );
  }

-- A decision that the counters have taken away has its event.
Taken : PolicyEventsByKey → List Event → Decision → Type 0
Taken index events d =
    (before : List Event) × (e : Event) × (after : List Event) × (events ≡ (before ++ e ∷ after))
    × Answers e d
    × Counts (consume index d).0 (before ++ after)

module _ (index : PolicyEventsByKey) (events : List Event) (d : Decision)
    (c : Counts index events) where
  Taken-by_id : eqb (count_of index.by_decision_id d.decision_id) 0 ≡ false → Taken index events d
  unfolding Taken consume
  Taken-by_id h =
      let (before, e, after, shape, passes) =
        tally-find (named d.decision_id) events (ground (arith, c.by_id d.decision_id)) in
      let counted = subst (λ (es : List Event). Counts index es) shape c in
      (
        before,
        e,
        after,
        shape,
        ground arith,
        rw h (consume-by_id index before e after d.decision_id counted passes),
      )

  Taken-by_key :
      eqb (count_of index.by_decision_id d.decision_id) 0 ≡ true
      → eqb (count_of index.legacy (decision_key d)) 0 ≡ false
      → Taken index events d
  unfolding Taken consume
  Taken-by_key no_id h =
      let (before, e, after, shape, passes) =
        tally-find (keyed (decision_key d)) events (ground (arith, c.by_key (decision_key d))) in
      let counted = subst (λ (es : List Event). Counts index es) shape c in
      (
        before,
        e,
        after,
        shape,
        ground arith,
        rw (no_id, h) (consume-by_key index before e after (decision_key d) counted passes),
      )

  consume-Taken : (consume index d).1 ≡ true → Taken index events d
  unfolding consume
  consume-Taken h = elim (Bool-cases (eqb (count_of index.by_decision_id d.decision_id) 0)) [
    | inr by_id ↦ Taken-by_id by_id
    | inl no_id ↦ elim (Bool-cases (eqb (count_of index.legacy (decision_key d)) 0)) [
      | inr by_key ↦ Taken-by_key no_id by_key
      | inl no_key ↦ cc (rw (no_id, no_key) at h)
    ]
  ]

pub consume_all-Matched :
    (index : PolicyEventsByKey) (events : List Event) (decisions : List Decision)
    → Counts index events
    → consume_all index decisions ≡ ok tt
    → Matched decisions events
unfolding consume_all Taken
consume_all-Matched index events [] c h = tt
consume_all-Matched index events (d ∷ decisions) c h = elim (Bool-cases (consume index d).1) [
  | inr refused ↦ cc (rw refused at h)
  | inl taken ↦
      let (before, e, after, shape, answers, left) = consume-Taken index events d c taken in
      (
        before,
        e,
        after,
        shape,
        answers,
        consume_all-Matched (consume index d).0 (before ++ after) decisions left (rw taken at h),
      )
]

-- The verifier's pass over the decisions succeeds only if each decision can be given a policy event
-- of the ledger that answers it, no event to two decisions.
pub decisions-Matched :
    (events : List Event) (decisions : List Decision)
    → consume_all (policy_event_index events) decisions ≡ ok tt
    → Matched decisions events
decisions-Matched events decisions h =
    consume_all-Matched (policy_event_index events) events decisions
      (policy_event_index-Counts events) h
