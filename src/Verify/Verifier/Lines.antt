-- ===== src/Verify/Verifier/Lines.antt =====
-- The line numbers that the summaries of the failures give.
use ao_covenant.Base.{
  ℕ, ◌+◌, String, Option, none, some, List, [], ◌∷◌, ◌++◌, ◌≡◌, arith, refl, sym, ap, ◌∙◌, subst,
  length, length-append, ◌==◌, Bool-cases, inl, inr, Outcome, ok, ◌>>=◌, >>-ok, All, eq_of_==,
}
use ao_covenant.Base.Dict.{lookup, insert, lookup-insert}
use ao_covenant.Run.Types.{Event, FailureRecord}
use ao_covenant.Verify.Types.{Error, FailureSummary, open_ledger, decode_event}
use ao_covenant.Verify.Provenance.{summarize_failures, failure_summary}
use ao_covenant.Verify.Files.{Disk}
use ao_covenant.Verify.Verifier.{Decoder, LedgerData, read_lines, read_ledger, or_error}

-- The line of the file with this number, counted from 1, decodes to an event with this id.
abbrev pub OnLine : Decoder → List String → ℕ → String → Type 0
OnLine decoder lines line id =
    (before : List String) × (text : String) × (after : List String) × (lines
      ≡ (before ++ text ∷ after))
    × (length before + 1 ≡ line)
    × (e : Event) × (decoder.event text ≡ some e)
    × (e.event_id ≡ id)

-- What was there where the rest was reached.
or_error-ok :
    {A B : Type 0} (x : Option A) (e : Error) (rest : A → Outcome Error B) (v : B)
    → (or_error x e >>= rest) ≡ ok v
    → (a : A) × (x ≡ some a) × (rest a ≡ ok v)
or_error-ok none e rest v h = cc
or_error-ok (some a) e rest v h = (a, refl, h)

append_assoc : (xs ys zs : List String) → (xs ++ ys) ++ zs ≡ xs ++ (ys ++ zs)
append_assoc [] ys zs = refl
append_assoc (x ∷ xs) ys zs = ap (λ (l : List String). x ∷ l) (append_assoc xs ys zs)

abbrev add_line : ℕ → LedgerData → Event → LedgerData
add_line line ledger e = record {
  events = ledger.events ++ e ∷ [];
  event_lines = insert e.event_id (line + 1) ledger.event_lines;
}

module _ (decoder : Decoder) (file : List String) where
  -- Each number that the ledger keeps is that of a line of the file.
  abbrev Numbered : LedgerData → Type 0
  Numbered ledger =
      (id : String) (n : ℕ) → lookup ledger.event_lines id ≡ some n → OnLine decoder file n id

  add_line-Numbered :
      (read : List String) (text : String) (lines : List String) (ledger : LedgerData) (e : Event)
      → file ≡ (read ++ text ∷ lines)
      → decoder.event text ≡ some e
      → Numbered ledger
      → Numbered (add_line (length read) ledger e)
  add_line-Numbered read text lines ledger e shape decoded numbered id n found =
      let here = lookup-insert e.event_id id (length read + 1) ledger.event_lines in
      elim (Bool-cases (e.event_id == id)) [
        | inl same ↦ (
          read,
          text,
          lines,
          shape,
          ground (arith, rw (here, same) at found),
          e,
          decoded,
          eq_of_== e.event_id id same,
        )
        | inr differ ↦ numbered id n (rw (here, differ) at found)
      ]

  next_read :
      (read : List String) (line : ℕ) (text : String)
      → length read ≡ line
      → length (read ++ text ∷ []) ≡ line + 1
  next_read read line text count = omega (arith, count, length-append read (text ∷ []))

  read_lines-Numbered :
      (read : List String) (line : ℕ) (lines : List String) (ledger result : LedgerData)
      → file ≡ (read ++ lines)
      → length read ≡ line
      → Numbered ledger
      → read_lines decoder line ledger lines ≡ ok result
      → Numbered result
  unfolding read_lines
  read_lines-Numbered read line [] ledger result shape count numbered h =
      let same : ledger ≡ result = cc in subst Numbered same numbered
  read_lines-Numbered read line (text ∷ lines) ledger result shape count numbered h =
      let (_, decoded) = >>-ok _ _ h in
      let (e, found, more) =
        or_error-ok (decoder.event text) (decode_event (line + 1))
          (λ e. read_lines decoder (line + 1) (add_line line ledger e) lines) result decoded in
      read_lines-Numbered (read ++ text ∷ []) (line + 1) lines (add_line line ledger e) result
        (shape ∙ sym (append_assoc read (text ∷ []) lines)) (next_read read line text count)
        (subst (λ (n : ℕ). Numbered (add_line n ledger e)) count
          (add_line-Numbered read text lines ledger e shape found numbered))
        more

  summarize-OnLine :
      (ledger : LedgerData) (records : List FailureRecord) (summaries : List FailureSummary)
      → Numbered ledger
      → summarize_failures ledger.event_lines records ≡ ok summaries
      → All (λ s. OnLine decoder file s.event_line s.event_id) summaries
  unfolding summarize_failures
  summarize-OnLine ledger [] summaries numbered h =
      let none_left : [] ≡ summaries = cc in
      subst (λ (l : List FailureSummary). All (λ s. OnLine decoder file s.event_line s.event_id) l)
        none_left tt
  summarize-OnLine ledger (f ∷ records) summaries numbered h =
      let (n, rest, found, more, shape) : (n : ℕ) × (rest : List FailureSummary) × (lookup
              ledger.event_lines f.event_id
            ≡ some n)
          × (summarize_failures ledger.event_lines records ≡ ok rest)
          × ((failure_summary f n ∷ rest) ≡ summaries) =
        ground arith in
      subst (λ (l : List FailureSummary). All (λ s. OnLine decoder file s.event_line s.event_id) l)
        shape (numbered f.event_id n found, summarize-OnLine ledger records rest numbered more)

no_lines :
    (decoder : Decoder) (file : List String)
    → Numbered decoder file (record { events = []; event_lines = [] })
unfolding lookup
no_lines decoder file id n found = cc

-- Each failure that the verifier summarises is given the number of a line of the ledger's file, counted
-- from 1 over all its lines, which decodes to an event with the id that the failure names.
pub read_ledger-OnLine :
    (decoder : Decoder) (disk : Disk) (path : String) (ledger : LedgerData)
    (records : List FailureRecord) (summaries : List FailureSummary)
    → read_ledger decoder disk path ≡ ok ledger
    → summarize_failures ledger.event_lines records ≡ ok summaries
    → (bytes : String) × (disk.contents path ≡ some bytes)
      × (lines : List String) × (decoder.lines bytes ≡ some lines)
      × All (λ s. OnLine decoder lines s.event_line s.event_id) summaries
unfolding read_ledger
read_ledger-OnLine decoder disk path ledger records summaries h k =
    let empty : LedgerData = record { events = []; event_lines = [] } in
    let (bytes, found, scanned) =
      or_error-ok (disk.contents path) open_ledger
        (λ bytes. or_error (decoder.lines bytes) open_ledger >>= read_lines decoder 0 empty) ledger
        h in
    let (lines, split, read) =
      or_error-ok (decoder.lines bytes) open_ledger (read_lines decoder 0 empty) ledger scanned in
    let numbered =
      read_lines-Numbered decoder lines [] 0 lines empty ledger refl refl (no_lines decoder lines)
        read in
    (bytes, found, lines, split, summarize-OnLine decoder lines ledger records summaries numbered k)
