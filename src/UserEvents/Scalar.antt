-- ===== src/UserEvents/Scalar.antt =====
-- The element type `T` of the aggregate columns (float, double, int32_t, int64_t) with the
-- operations that the columns use, and the laws under which their results are exact.
use nimble_sdk.Prelude.{
  ℕ, ◌≡◌, Bool, true, false, Option, none, some, [], ◌∷◌, Text, if◌then◌else◌, ◌&&◌, ◌||◌, ◌==◌,
  leb,
}
use nimble_sdk.Prelude.Int.{ℤ}

pub record Scalar : Type 1 where
  pub T : Type 0
  pub nought : T
  pub one : T
  pub plus : T → T → T
  pub minus : T → T → T
  pub divide : T → ℤ → T
  pub lt : T → T → Bool
  pub eq : T → T → Bool
  -- What `ss >> t` stores for a text that is not blank: the number at its front, the nearest
  -- limit of the type if the number is out of range, zero if there is no number.
  pub extract : Text → T

-- Exact addition: integers that do not overflow have it, floats do not.
pub record IsExact (s : Scalar) : Type 0 where
  pub nought-plus : (a : s.T) → s.plus s.nought a ≡ a
  pub plus-nought : (a : s.T) → s.plus a s.nought ≡ a
  pub plus_assoc : (a b c : s.T) → s.plus (s.plus a b) c ≡ s.plus a (s.plus b c)
  pub minus-plus : (a b : s.T) → s.minus (s.plus a b) a ≡ b

-- A strict total order whose equality test is right: every instance but a float that is NaN.
pub record IsOrdered (s : Scalar) : Type 0 where
  pub lt_irrefl : (a : s.T) → s.lt a a ≡ false
  pub lt_trans : (a b c : s.T) → s.lt a b ≡ true → s.lt b c ≡ true → s.lt a c ≡ true
  pub lt_connected : (a b : s.T) → s.lt a b ≡ false → s.lt b a ≡ false → a ≡ b
  pub eq_refl : (a : s.T) → s.eq a a ≡ true

-- `isspace` in the "C" locale.
abbrev is_space : ℕ → Bool
is_space c = c == 32 || leb 9 c && leb c 13

unfoldable pub is_blank : Text → Bool
is_blank [] = true
is_blank (c ∷ t) = is_space c && is_blank t

module _ (s : Scalar) where
  open s use {T, lt, extract}

  -- `GetAs`: at an empty or a blank text the stream stores nothing, and the method returns a
  -- variable that was never given a value, a fault. It logs any failure and stops at none.
  unfoldable pub get_as : Text → Option T
  unfolding is_blank
  get_as t = if is_blank t then none else some (extract t)

  -- `std::max` and `std::min`.
  abbrev pub max_of : T → T → T
  max_of a b = if lt a b then b else a

  abbrev pub min_of : T → T → T
  min_of a b = if lt b a then b else a
