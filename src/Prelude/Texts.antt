-- ===== src/Prelude/Texts.antt =====
-- Text (`std::string`, `char*`) as its list of bytes, with the order of `std::string::operator<`.
use Prim.Native.Nat.{ℕ, compare, Ordering}
use Prim.Native.Char.{code}
use Prim.Native.String.{String}
use mathlib.Core.Path.{◌≡◌, refl}
use mathlib.Core.Logic.{◌↔◌}
use mathlib.Core.Bool.{Bool, true, false}
use mathlib.Core.List.{List, [], ◌∷◌}
use native.Mathlib.Omega.{arith}

abbrev pub Text : Type 0
Text = List ℕ

-- The bytes of an ASCII literal.
abbrev pub codes : String → Text
codes String.[] = []
codes (String.◌∷◌ c s) = code c ∷ codes s

unfoldable pub compare_text : Text → Text → Ordering
compare_text [] [] = Ordering.eq
compare_text [] (b ∷ bs) = Ordering.lt
compare_text (a ∷ as') [] = Ordering.gt
compare_text (a ∷ as') (b ∷ bs) = elim (compare a b) [
  | Ordering.lt ↦ Ordering.lt
  | Ordering.eq ↦ compare_text as' bs
  | Ordering.gt ↦ Ordering.gt
]

abbrev pub eq_text : Text → Text → Bool
eq_text s t = elim (compare_text s t) [ Ordering.eq ↦ true | _ ↦ false ]

pub compare_text_refl : (s : Text) → compare_text s s ≡ Ordering.eq
unfolding compare_text
compare_text_refl [] = refl
compare_text_refl (a ∷ s) = ground (arith, compare_text_refl s)

pub compare_text_eq : (s t : Text) → compare_text s t ≡ Ordering.eq → s ≡ t
unfolding compare_text
compare_text_eq [] [] h = refl
compare_text_eq [] (b ∷ t) h = cc
compare_text_eq (a ∷ s) [] h = cc
compare_text_eq (a ∷ s) (b ∷ t) h = ground (arith, compare_text_eq s t)

pub compare_text_gt : (s t : Text) → compare_text s t ≡ Ordering.gt → compare_text t s ≡ Ordering.lt
unfolding compare_text
compare_text_gt [] [] h = cc
compare_text_gt [] (b ∷ t) h = cc
compare_text_gt (a ∷ s) [] h = refl
compare_text_gt (a ∷ s) (b ∷ t) h = ground (arith, compare_text_gt s t)

pub compare_text_trans :
    (s t u : Text)
    → compare_text s t ≡ Ordering.lt
    → compare_text t u ≡ Ordering.lt
    → compare_text s u ≡ Ordering.lt
unfolding compare_text
compare_text_trans [] [] u h k = cc
compare_text_trans [] (b ∷ t) [] h k = cc
compare_text_trans [] (b ∷ t) (c ∷ u) h k = refl
compare_text_trans (a ∷ s) [] u h k = cc
compare_text_trans (a ∷ s) (b ∷ t) [] h k = cc
compare_text_trans (a ∷ s) (b ∷ t) (c ∷ u) h k = ground (arith, compare_text_trans s t u)

pub eq_text_refl : (s : Text) → eq_text s s ≡ true
eq_text_refl s = ground (arith, compare_text_refl s)

pub eq_text_iff : (s t : Text) → (eq_text s t ≡ true) ↔ (s ≡ t)
eq_text_iff s t = (λ h. ground (arith, compare_text_eq s t), λ e. rw e (eq_text_refl t))
