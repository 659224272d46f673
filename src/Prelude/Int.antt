-- ===== src/Prelude/Int.antt =====
-- The C++ `int`: signed integers, and the `for` loop over them. They do not wrap: every int of the
-- modelled code is an index of a vector or a count of its entries.
use nimble_sdk.Prelude.Tests.{ltb, leb, ◌==◌}
use nimble_sdk.Prelude.Lists.{get_elem?}
use Prim.Native.Nat.{ℕ, zero, suc, ◌+◌, ◌-◌}
use mathlib.Core.Bool.{Bool, true, false}
use mathlib.Core.List.{List}
use mathlib.Core.Option.{Option, none}

-- `negsuc n` is -(n + 1).
pub data ℤ : Type 0 where
  pos : ℕ → ℤ
  negsuc : ℕ → ℤ

abbrev pub minus_one : ℤ
minus_one = negsuc 0

abbrev pub suc_ℤ : ℤ → ℤ
suc_ℤ (pos n) = pos (n + 1)
suc_ℤ (negsuc zero) = pos 0
suc_ℤ (negsuc (suc n)) = negsuc n

abbrev pub pred_ℤ : ℤ → ℤ
pred_ℤ (pos zero) = negsuc 0
pred_ℤ (pos (suc n)) = pos n
pred_ℤ (negsuc n) = negsuc (suc n)

abbrev pub is_zero : ℤ → Bool
is_zero (pos n) = n == 0
is_zero (negsuc n) = false

abbrev pub is_minus_one : ℤ → Bool
is_minus_one (pos n) = false
is_minus_one (negsuc n) = n == 0

abbrev pub leb_ℤ : ℤ → ℤ → Bool
leb_ℤ (pos a) (pos b) = leb a b
leb_ℤ (pos a) (negsuc b) = false
leb_ℤ (negsuc a) (pos b) = true
leb_ℤ (negsuc a) (negsuc b) = leb b a

-- The rounds of `for (int i = lo; i < hi; i++)`.
abbrev pub rounds : ℤ → ℤ → ℕ
rounds (pos a) (pos b) = b - a
rounds (negsuc a) (pos b) = suc a + b
rounds (pos a) (negsuc b) = 0
rounds (negsuc a) (negsuc b) = a - b

-- `i < v.size()` for an int `i`: a negative `i` is converted to a size_t past every size.
abbrev pub lt_size : ℤ → ℕ → Bool
lt_size (pos i) n = ltb i n
lt_size (negsuc i) n = false

-- `v[i]` for an int `i`; out of bounds it is undefined behaviour.
abbrev pub at_int {ℓ} : {A : Type ℓ} → List A → ℤ → Option A
at_int xs (pos i) = get_elem? xs i
at_int xs (negsuc i) = none

abbrev pub eq_ℤ : ℤ → ℤ → Bool
eq_ℤ (pos a) (pos b) = a == b
eq_ℤ (pos a) (negsuc b) = false
eq_ℤ (negsuc a) (pos b) = false
eq_ℤ (negsuc a) (negsuc b) = a == b
