-- ===== src/Integers.antt =====
-- Go's `int`, a signed 64-bit number: the program compares and prints such numbers and computes with
-- none of them, so they are kept as integers.
use ao_covenant.Base.{ℕ, suc, String, ◌<>◌, Bool, true, false, leb, eqb}
use ao_covenant.Text.{decimal}

-- `negsuc n` is the number -(n + 1).
pub data ℤ : Type 0 where
  pos : ℕ → ℤ
  negsuc : ℕ → ℤ

-- `low <= n` and `n <= high`, for the bounds of the program, none of which is negative.
abbrev pub at_least : ℕ → ℤ → Bool
at_least low (pos n) = leb low n
at_least low (negsuc n) = false

abbrev pub at_most : ℕ → ℤ → Bool
at_most high (pos n) = leb n high
at_most high (negsuc n) = true

abbrev pub same_int : ℤ → ℤ → Bool
same_int (pos m) (pos n) = eqb m n
same_int (negsuc m) (negsuc n) = eqb m n
same_int _ _ = false

-- The verb `%d`.
abbrev pub decimal_int : ℤ → String
decimal_int (pos n) = decimal n
decimal_int (negsuc n) = "-" <> decimal (suc n)
