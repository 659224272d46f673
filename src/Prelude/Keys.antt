-- ===== src/Prelude/Keys.antt =====
-- Keys in the order of a std::map, which its set of keys determines.
use Prim.Native.Nat.{ℕ, zero, suc, Ordering}
use mathlib.Core.Path.{◌≡◌, refl, sym, ap, ap₂, ◌∙◌}
use mathlib.Core.Logic.{◌⊎◌, inl, inr}
use mathlib.Core.List.{List, [], ◌∷◌}
use mathlib.Core.Option.{some}
use nimble_sdk.Prelude.Lists.{get_elem?}
use nimble_sdk.Prelude.Texts.{Text, compare_text, compare_text_refl, compare_text_trans}

-- A list of keys as a std::map holds them: each below the next.
pub data Increasing : List Text → Type 0 where
  none_left : Increasing []
  one_left : {k : Text} → Increasing (k ∷ [])
  below :
      {j k : Text} {ks : List Text}
      → compare_text j k ≡ Ordering.lt
      → Increasing (k ∷ ks)
      → Increasing (j ∷ k ∷ ks)

abbrev pub Mem : Text → List Text → Type 0
Mem name [] = ⊥
Mem name (k ∷ ks) = (name ≡ k) ⊎ Mem name ks

pub get_elem?-Mem : (ks : List Text) (i : ℕ) {k : Text} → get_elem? ks i ≡ some k → Mem k ks
get_elem?-Mem [] i h = cc
get_elem?-Mem (x ∷ ks) zero h = inl cc
get_elem?-Mem (x ∷ ks) (suc i) h = inr (get_elem?-Mem ks i h)

pub Increasing-tail : {k : Text} {ks : List Text} → Increasing (k ∷ ks) → Increasing ks
Increasing-tail one_left = none_left
Increasing-tail (below h rest) = rest

pub Increasing-head :
    {k : Text} {ks : List Text}
    → Increasing (k ∷ ks)
    → (n : Text) → Mem n ks
    → compare_text k n ≡ Ordering.lt
Increasing-head one_left n m = elim m [ ]
Increasing-head (below h rest) n (inl e) = rw e h
Increasing-head (below {j} {k} h rest) n (inr m) =
    compare_text_trans j k n h (Increasing-head rest n m)

pub not_below_itself : (k : Text) → compare_text k k ≡ Ordering.lt → ⊥
not_below_itself k h = let e = compare_text_refl k in cc

heads_meet :
    {k j : Text} {ks js : List Text}
    → Increasing (k ∷ ks)
    → Increasing (j ∷ js)
    → Mem k (j ∷ js)
    → Mem j (k ∷ ks)
    → k ≡ j
heads_meet p q (inl e) b = e
heads_meet p q (inr a) (inl e) = sym e
heads_meet {k} {j} p q (inr a) (inr b) =
    absurd (
      not_below_itself k (compare_text_trans k j k (Increasing-head p j b) (Increasing-head q k a)))

tail_within :
    (k : Text) (ks js : List Text)
    → Increasing (k ∷ ks)
    → ((n : Text) → Mem n (k ∷ ks) → Mem n (k ∷ js))
    → (n : Text) → Mem n ks
    → Mem n js
tail_within k ks js p f n m = elim (f n (inr m)) [
  | inl e ↦
      let l = Increasing-head p n m in absurd (not_below_itself k (ap (compare_text k) (sym e) ∙ l))
  | inr m' ↦ m'
]

pub Increasing-unique :
    (ks js : List Text)
    → Increasing ks
    → Increasing js
    → ((n : Text) → Mem n ks → Mem n js)
    → ((n : Text) → Mem n js → Mem n ks)
    → ks ≡ js
Increasing-unique [] [] p q f g = refl
Increasing-unique [] (j ∷ js) p q f g = elim (g j (inl refl)) [ ]
Increasing-unique (k ∷ ks) [] p q f g = elim (f k (inl refl)) [ ]
Increasing-unique (k ∷ ks) (j ∷ js) p q f g =
    let e : k ≡ j = heads_meet p q (f k (inl refl)) (g j (inl refl)) in
    let q' : Increasing (k ∷ js) = rw e q in
    let f' : (n : Text) → Mem n (k ∷ ks) → Mem n (k ∷ js) = λ n m. let r = f n m in rw e r in
    let g' : (n : Text) → Mem n (k ∷ js) → Mem n (k ∷ ks) = λ n m. g n (rw (sym e) m) in
    let rest =
      Increasing-unique ks js (Increasing-tail p) (Increasing-tail q) (tail_within k ks js p f')
        (tail_within k js ks q' g') in
    ap₂ (λ a b. a ∷ b) e rest
