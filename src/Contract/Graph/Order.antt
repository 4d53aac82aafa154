-- ===== src/Contract/Graph/Order.antt =====
-- A dependency graph in which no cycle was found has a topological order.
use ao_covenant.Base.{
  ℕ, zero, suc, ◌+◌, length, String, Bool, true, false, Option, none, some, List, [], ◌∷◌, ◌≡◌,
  refl, ap, subst, arith, All, Bool-cases, inl, inr,
}
use ao_covenant.Base.Dict.{Dict, has, has-insert}
use ao_covenant.Contract.Types.{Task}
use ao_covenant.Contract.Graph.{
  Marks, visit_all, visit, depends_on, enter, leave, resume, ids_of, has_cycle, by_id, no_marks,
  answer,
}

-- Each entry comes after all that it depends on, from the end of the list to its front.
abbrev pub Ordered : Dict Task → Dict Bool → Type 0
Ordered known [] = Unit
Ordered known ((id, b) ∷ done) =
    (b ≡ true) × All (λ d. has done d ≡ true) (depends_on known id) × Ordered known done

-- Nothing that was done is forgotten.
abbrev Extends : Dict Bool → Dict Bool → Type 0
Extends old new = (id : String) → has old id ≡ true → has new id ≡ true

-- What a search from some ids, without a cycle found, leaves behind.
record Done (known : Dict Task) (before after : Dict Bool) (ids : List String) : Type 0 where
  ordered : Ordered known after
  extends : Extends before after
  covers : All (λ id. has after id ≡ true) ids

-- A call that behaves so, for every id.
abbrev Sound : Dict Task → (String → Marks → Option (Bool × Marks)) → Type 0
Sound known call =
    (id : String) (m m' : Marks)
    → Ordered known m.visited
    → call id m ≡ some (false, m')
    → Done known m.visited m'.visited (id ∷ [])

All-Extends :
    (old new : Dict Bool) (ids : List String)
    → Extends old new
    → All (λ id. has old id ≡ true) ids
    → All (λ id. has new id ≡ true) ids
All-Extends old new [] e h = tt
All-Extends old new (id ∷ ids) e (h, hs) = (e id h, All-Extends old new ids e hs)

pub resume-false :
    (r : Option (Bool × Marks)) (rest : Marks → Option (Bool × Marks)) (m' : Marks)
    → resume r rest ≡ some (false, m')
    → (mid : Marks) × (r ≡ some (false, mid)) × (rest mid ≡ some (false, m'))
resume-false none rest m' h = cc
resume-false (some (true, m)) rest m' h = cc
resume-false (some (false, m)) rest m' h = (m, refl, h)

visit_all-Done :
    (known : Dict Task) (call : String → Marks → Option (Bool × Marks))
    → Sound known call
    → (ids : List String) (m m' : Marks) → Ordered known m.visited
    → visit_all call ids m ≡ some (false, m')
    → Done known m.visited m'.visited ids
unfolding visit_all
visit_all-Done known call sound [] m m' o h = record {
  ordered = ground arith;
  extends = λ id e. ground arith;
  covers = tt;
}
visit_all-Done known call sound (id ∷ ids) m m' o h =
    let (mid, first, rest) = resume-false (call id m) (visit_all call ids) m' h in
    let one = sound id m mid o first in
    let others = visit_all-Done known call sound ids mid m' one.ordered rest in
    record {
      ordered = others.ordered;
      extends = λ i e. others.extends i (one.extends i e);
      covers = (others.extends id one.covers.0, others.covers);
    }

-- Leaving an id whose dependencies are done.
leave-Done :
    (known : Dict Task) (id : String) (m m' : Marks)
    → Done known m.visited m'.visited (depends_on known id)
    → Done known m.visited (leave id m').visited (id ∷ [])
leave-Done known id m m' d = record {
  ordered = (refl, d.covers, d.ordered);
  extends = λ i e. ground (arith, has-insert id i true m'.visited, d.extends i e);
  covers = (ground (arith, has-insert id id true m'.visited), tt);
}

abbrev marks_of : Option (Bool × Marks) → Marks
marks_of none = no_marks
marks_of (some (found, m)) = m

-- A search that ends without moving on.
stay-Done :
    (known : Dict Task) (id : String) (m : Marks)
    → Ordered known m.visited
    → has m.visited id ≡ true
    → Done known m.visited m.visited (id ∷ [])
stay-Done known id m o old = record { ordered = o; extends = λ i e. e; covers = (old, tt) }

visit-Sound : (known : Dict Task) (fuel : ℕ) → Sound known (visit known fuel)
unfolding visit
visit-Sound known zero id m m' o h = cc
visit-Sound known (suc fuel) id m m' o h = elim (Bool-cases (has m.visiting id)) [
  | inl again ↦ ground arith
  | inr fresh ↦ elim (Bool-cases (has m.visited id)) [
    | inl old ↦
        let same = ap marks_of (rw (fresh, old) at h) in
        subst (λ (x : Marks). Done known m.visited x.visited (id ∷ [])) same
          (stay-Done known id m o old)
    | inr new ↦
        let (mid, below, last) = resume-false _ _ m' (rw (fresh, new) at h) in
        let inside =
          visit_all-Done known (visit known fuel) (visit-Sound known fuel) (depends_on known id)
            (enter id m) mid o below in
        subst (λ (x : Marks). Done known m.visited x.visited (id ∷ [])) (ap marks_of last)
          (leave-Done known id m mid inside)
  ]
]

answer-false :
    (r : Option (Bool × Marks)) → answer r ≡ some false → (m : Marks) × (r ≡ some (false, m))
answer-false none h = cc
answer-false (some (true, m)) h = cc
answer-false (some (false, m)) h = (m, refl)

-- If no cycle is found, the search leaves an order of ids in which each id comes after all that its
-- task depends on, and which has the id of every task.
pub has_cycle-Ordered :
    (tasks : List Task)
    → has_cycle tasks ≡ some false
    → (done : Dict Bool) × Ordered (by_id tasks) done
      × All (λ id. has done id ≡ true) (ids_of tasks)
unfolding has_cycle
has_cycle-Ordered tasks h =
    let known = by_id tasks in
    let (m, found) =
      answer-false (visit_all (visit known (length tasks + 2)) (ids_of tasks) no_marks) h in
    let done =
      visit_all-Done known (visit known (length tasks + 2)) (visit-Sound known (length tasks + 2))
        (ids_of tasks) no_marks m tt found in
    (m.visited, done.ordered, done.covers)
