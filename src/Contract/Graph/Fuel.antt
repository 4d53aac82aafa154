-- ===== src/Contract/Graph/Fuel.antt =====
-- The search always ends within its fuel: each entered id is a task's and not entered already.
use ao_covenant.Base.{
  ℕ, zero, suc, ◌+◌, ◌≤◌, ◌<◌, String, Bool, true, false, Option, none, some, List, [], ◌∷◌, length,
  contains_string, if◌then◌else◌, ◌≡◌, ◌≢◌, refl, sym, ap, ◌∙◌, arith, Bool-cases, inl, inr,
}
use ao_covenant.Base.Dict.{Dict, lookup, insert, has, has-insert}
use ao_covenant.Contract.Types.{Task}
use ao_covenant.Contract.Graph.{
  Marks, visit_all, visit, depends_on, enter, resume, ids_of, has_cycle, by_id, by_id_onto,
  no_marks, answer,
}
use ao_covenant.Contract.Graph.Order.{resume-false}

-- An id that no task has depends on nothing.
lookup-by_id_onto :
    (known : Dict Task) (tasks : List Task) (id : String)
    → lookup known id ≡ none
    → contains_string (ids_of tasks) id ≡ false
    → lookup (by_id_onto known tasks) id ≡ none
unfolding by_id_onto
lookup-by_id_onto known [] id h c = h
lookup-by_id_onto known (t ∷ tasks) id h c =
    lookup-by_id_onto (insert t.id t known) tasks id (unfold lookup in ground arith) (ground arith)

depends_on-nil :
    (tasks : List Task) (id : String)
    → contains_string (ids_of tasks) id ≡ false
    → depends_on (by_id tasks) id ≡ []
unfolding depends_on by_id
depends_on-nil tasks id c = rw (lookup-by_id_onto [] tasks id (unfold lookup in refl) c) refl

abbrev SameVisiting : Marks → Marks → Type 0
SameVisiting m m' = (id : String) → has m'.visiting id ≡ has m.visiting id

abbrev Keeps : (String → Marks → Option (Bool × Marks)) → Type 0
Keeps call = (id : String) (m m' : Marks) → call id m ≡ some (false, m') → SameVisiting m m'

abbrev marks_of : Option (Bool × Marks) → Marks
marks_of none = no_marks
marks_of (some (found, m)) = m

visit_all-Keeps :
    (call : String → Marks → Option (Bool × Marks))
    → Keeps call
    → (ids : List String) (m m' : Marks) → visit_all call ids m ≡ some (false, m')
    → SameVisiting m m'
unfolding visit_all
visit_all-Keeps call keeps [] m m' h id = ap (λ r. has (marks_of r).visiting id) (sym h)
visit_all-Keeps call keeps (i ∷ ids) m m' h id =
    let (mid, first, rest) = resume-false (call i m) (visit_all call ids) m' h in
    visit_all-Keeps call keeps ids mid m' rest id ∙ keeps i m mid first id

visit-Keeps : (known : Dict Task) (fuel : ℕ) → Keeps (visit known fuel)
unfolding visit
visit-Keeps known zero id m m' h x = cc
visit-Keeps known (suc fuel) id m m' h x = elim (Bool-cases (has m.visiting id)) [
  | inl again ↦ ground arith
  | inr fresh ↦ elim (Bool-cases (has m.visited id)) [
    | inl old ↦ ap (λ r. has (marks_of r).visiting x) (sym (rw (fresh, old) at h))
    | inr new ↦
        let (mid, below, last) = resume-false _ _ m' (rw (fresh, new) at h) in
        let inside =
          visit_all-Keeps (visit known fuel) (visit-Keeps known fuel) (depends_on known id)
            (enter id m) mid below x in
        ap (λ r. has (marks_of r).visiting x) (sym last)
        ∙ ground
            (arith, inside, has-insert id x false mid.visiting, has-insert id x true m.visiting)
  ]
]

-- How many of the ids are not entered.
unseen : Dict Bool → List String → ℕ
unseen visiting [] = 0
unseen visiting (id ∷ ids) =
    let rest = unseen visiting ids in if has visiting id then rest else suc rest

unseen-insert-le :
    (visiting : Dict Bool) (id : String) (ids : List String)
    → unseen (insert id true visiting) ids ≤ unseen visiting ids
unfolding unseen
unseen-insert-le visiting id [] = omega arith
unseen-insert-le visiting id (i ∷ ids) =
    ground (arith, unseen-insert-le visiting id ids, has-insert id i true visiting)

unseen-insert-lt :
    (visiting : Dict Bool) (id : String) (ids : List String)
    → has visiting id ≡ false
    → contains_string ids id ≡ true
    → unseen (insert id true visiting) ids < unseen visiting ids
unfolding unseen
unseen-insert-lt visiting id [] new c = cc
unseen-insert-lt visiting id (i ∷ ids) new c = ground (
  arith,
  unseen-insert-lt visiting id ids new,
  unseen-insert-le visiting id ids,
  has-insert id i true visiting,
)

unseen-same :
    (m m' : Marks) (ids : List String)
    → SameVisiting m m'
    → unseen m'.visiting ids ≡ unseen m.visiting ids
unfolding unseen
unseen-same m m' [] same = refl
unseen-same m m' (i ∷ ids) same = ground (arith, same i, unseen-same m m' ids same)

unseen-nil : (ids : List String) → unseen [] ids ≡ length ids
unfolding unseen has
unseen-nil [] = refl
unseen-nil (i ∷ ids) = omega (arith, unseen-nil ids)

length-ids_of : (tasks : List Task) → length (ids_of tasks) ≡ length tasks
length-ids_of [] = refl
length-ids_of (t ∷ tasks) = omega (arith, length-ids_of tasks)

-- Fewer ids left to enter than `bound` are enough for an answer.
abbrev TotalBelow : List String → ℕ → (String → Marks → Option (Bool × Marks)) → Type 0
TotalBelow ids bound call =
    (id : String) (m : Marks) → unseen m.visiting ids < bound → call id m ≢ none

resume-ne-none :
    (r : Option (Bool × Marks)) (rest : Marks → Option (Bool × Marks))
    → r ≢ none
    → ((m : Marks) → r ≡ some (false, m) → rest m ≢ none)
    → resume r rest ≢ none
resume-ne-none none rest h k e = h refl
resume-ne-none (some (true, m)) rest h k e = cc
resume-ne-none (some (false, m)) rest h k e = k m refl e

visit_all-ne-none :
    (ids : List String) (bound : ℕ) (call : String → Marks → Option (Bool × Marks))
    → TotalBelow ids bound call
    → Keeps call
    → (list : List String) (m : Marks) → unseen m.visiting ids < bound
    → visit_all call list m ≢ none
unfolding visit_all
visit_all-ne-none ids bound call total keeps [] m h = λ e. cc
visit_all-ne-none ids bound call total keeps (i ∷ list) m h =
    resume-ne-none (call i m) (visit_all call list) (total i m h) λ mid first.
      visit_all-ne-none ids bound call total keeps list mid
        (rw (unseen-same m mid ids (keeps i m mid first)) h)

visit-TotalBelow :
    (tasks : List Task) (fuel : ℕ) → TotalBelow (ids_of tasks) fuel (visit (by_id tasks) fuel)
unfolding visit
visit-TotalBelow tasks zero id m h e = elim h [ ]
visit-TotalBelow tasks (suc fuel) id m h e = elim (Bool-cases (has m.visiting id)) [
  | inl again ↦ ground arith
  | inr fresh ↦ elim (Bool-cases (has m.visited id)) [
    | inl old ↦ ground arith
    | inr new ↦ elim (Bool-cases (contains_string (ids_of tasks) id)) [
      | inl listed ↦
          resume-ne-none _ _
            (visit_all-ne-none (ids_of tasks) fuel (visit (by_id tasks) fuel)
              (visit-TotalBelow tasks fuel) (visit-Keeps (by_id tasks) fuel)
              (depends_on (by_id tasks) id) (enter id m)
              (omega (arith, unseen-insert-lt m.visiting id (ids_of tasks) fresh listed)))
            (λ mid r s. cc) (rw (fresh, new) at e)
      | inr unlisted ↦
          let leaf = rw (fresh, new, depends_on-nil tasks id unlisted) at e in
          unfold visit_all in cc
    ]
  ]
]

answer-ne-none : (r : Option (Bool × Marks)) → r ≢ none → (b : Bool) × (answer r ≡ some b)
answer-ne-none none h = absurd (h refl)
answer-ne-none (some (b, m)) h = (b, refl)

-- The search for a cycle always has an answer.
pub has_cycle_total : (tasks : List Task) → (b : Bool) × (has_cycle tasks ≡ some b)
unfolding has_cycle
has_cycle_total tasks =
    let fuel = length tasks + 2 in
    answer-ne-none (visit_all (visit (by_id tasks) fuel) (ids_of tasks) no_marks) (
      visit_all-ne-none (ids_of tasks) fuel (visit (by_id tasks) fuel) (visit-TotalBelow tasks fuel)
        (visit-Keeps (by_id tasks) fuel) (ids_of tasks) no_marks
        (omega (arith, unseen-nil (ids_of tasks), length-ids_of tasks)))
