-- ===== src/Contract/Graph/Acyclic.antt =====
-- What the topological order excludes: a chain of dependencies that returns to its task.
use ao_covenant.Base.{
  ℕ, suc, ◌≤◌, ◌<◌, String, Bool, true, false, some, List, [], ◌∷◌, length, contains_string,
  if◌then◌else◌, ◌≡◌, arith, All, Bool-cases, inl, inr,
}
use ao_covenant.Base.Dict.{Dict, has}
use ao_covenant.Contract.Types.{Task}
use ao_covenant.Contract.Graph.{depends_on, ids_of, has_cycle, by_id}
use ao_covenant.Contract.Graph.Order.{Ordered, has_cycle-Ordered}

-- `a` depends on `b`, directly or through other tasks.
pub data Leads (known : Dict Task) (a : String) : String → Type 0 where
  direct : {b : String} → contains_string (depends_on known a) b ≡ true → Leads known a b
  through :
      {b c : String}
      → Leads known a b
      → contains_string (depends_on known b) c ≡ true
      → Leads known a c

-- The position of the id's last entry, counted from the end of the list.
rank : Dict Bool → String → ℕ
rank [] id = 0
rank ((j, b) ∷ done) id =
    let below = rank done id in if has done id then below else suc (length done)

rank-le : (done : Dict Bool) (id : String) → has done id ≡ true → rank done id ≤ length done
unfolding rank
rank-le [] id h = omega arith
rank-le ((j, b) ∷ done) id h = ground (arith, rank-le done id)

All-contains :
    (done : Dict Bool) (ids : List String) (d : String)
    → All (λ i. has done i ≡ true) ids
    → contains_string ids d ≡ true
    → has done d ≡ true
All-contains done [] d h c = cc
All-contains done (i ∷ ids) d (h, hs) c = ground (arith, All-contains done ids d hs)

-- The value of the entry in front.
has-cons_self :
    (done : Dict Bool) (j a : String) (v : Bool)
    → has done a ≡ false
    → has ((j, v) ∷ done) a ≡ true
    → j ≡ a
unfolding has
has-cons_self done j a v new h = ground arith

has-cons :
    (done : Dict Bool) (j b : String) (v : Bool)
    → v ≡ true
    → has done b ≡ true
    → has ((j, v) ∷ done) b ≡ true
unfolding has
has-cons done j b v e h = ground arith

module _ (known : Dict Task) where
  -- A dependency is done, and earlier.
  rank-depends_on :
      (done : Dict Bool) (a b : String)
      → Ordered known done
      → has done a ≡ true
      → contains_string (depends_on known a) b ≡ true
      → (has done b ≡ true) × (rank done b < rank done a)
  unfolding rank has
  rank-depends_on [] a b o h c = cc
  rank-depends_on ((j, v) ∷ done) a b (e, deps, o) h c = elim (Bool-cases (has done a)) [
    | inl below ↦
        let (done_b, lower) = rank-depends_on done a b o below c in
        (has-cons done j b v e done_b, ground arith)
    | inr new ↦
        let same = has-cons_self done j a v new h in
        let done_b = All-contains done (depends_on known j) b deps (rw same c) in
        (has-cons done j b v e done_b, ground (arith, rank-le done b done_b))
  ]

  rank-Leads :
      (done : Dict Bool) {a c : String}
      → Ordered known done
      → has done a ≡ true
      → Leads known a c
      → (has done c ≡ true) × (rank done c < rank done a)
  rank-Leads done {a} {c} o h (direct d) = rank-depends_on done a c o h d
  rank-Leads done {a} {c} o h (through {b = b} l d) =
      let (done_b, lower) = rank-Leads done o h l in
      let (done_c, lowest) = rank-depends_on done b c o done_b d in (done_c, omega arith)

-- Where no cycle is found, no task of the list depends on itself, directly or through others.
pub has_cycle-acyclic :
    (tasks : List Task) (id : String)
    → has_cycle tasks ≡ some false
    → contains_string (ids_of tasks) id ≡ true
    → ¬ Leads (by_id tasks) id id
has_cycle-acyclic tasks id h listed l =
    let (done, ordered, covers) = has_cycle-Ordered tasks h in
    let done_id = All-contains done (ids_of tasks) id covers listed in
    let (_, lower) = rank-Leads (by_id tasks) done ordered done_id l in absurd (omega arith)
