-- ===== src/UserEvents/ExtremeColumn/Best.antt =====
-- The largest (or least) of a list, and the laws of std::max and std::min behind it.
use nimble_sdk.Prelude.{◌≡◌, refl, sym, ◌⊎◌, inl, inr, List, [], ◌∷◌, ◌++◌, All, arith}
use nimble_sdk.UserEvents.Scalar.{Scalar, IsOrdered, max_of, min_of}

-- The result is one of the two, and it does not matter which pair is compared first.
pub record IsChoice {T : Type 0} (pick : T → T → T) : Type 0 where
  pub pick_assoc : (a b c : T) → pick (pick a b) c ≡ pick a (pick b c)
  pub pick_or : (a b : T) → (pick a b ≡ a) ⊎ (pick a b ≡ b)

module _ (s : Scalar) (o : IsOrdered s) where
  max_assoc : (a b c : s.T) → max_of s (max_of s a b) c ≡ max_of s a (max_of s b c)
  max_assoc a b c = ground (
    arith,
    o.lt_trans a b c,
    o.lt_trans b c a,
    o.lt_trans a c b,
    o.lt_trans c b a,
    o.lt_connected a b,
    o.lt_connected b c,
    o.lt_connected a c,
    o.lt_trans b a c,
    o.lt_trans c a b,
  )

  pub max_of-IsChoice : IsChoice (max_of s)
  max_of-IsChoice = record { pick_assoc = max_assoc; pick_or = λ a b. ground arith }

  min_assoc : (a b c : s.T) → min_of s (min_of s a b) c ≡ min_of s a (min_of s b c)
  min_assoc a b c = ground (
    arith,
    o.lt_trans a b c,
    o.lt_trans b c a,
    o.lt_trans a c b,
    o.lt_trans c b a,
    o.lt_connected a b,
    o.lt_connected b c,
    o.lt_connected a c,
    o.lt_trans b a c,
    o.lt_trans c a b,
  )

  pub min_of-IsChoice : IsChoice (min_of s)
  min_of-IsChoice = record { pick_assoc = min_assoc; pick_or = λ a b. ground arith }

module _ {T : Type 0} (pick : T → T → T) where
  unfoldable pub best : T → List T → T
  best v [] = v
  best v (x ∷ xs) = best (pick v x) xs

  pub best-snoc : (v : T) (xs : List T) (w : T) → best v (xs ++ w ∷ []) ≡ pick (best v xs) w
  unfolding best
  best-snoc v [] w = refl
  best-snoc v (x ∷ xs) w = best-snoc (pick v x) xs w

  best-cons : IsChoice pick → (v x : T) (xs : List T) → best v (x ∷ xs) ≡ pick v (best x xs)
  unfolding best
  best-cons c v x [] = refl
  best-cons c v x (y ∷ xs) = rw (c.pick_assoc v x y) (best-cons c v (pick x y) xs)

  -- The best of a list is the best of any end of it whose front does not contain it.
  pub best-end :
      (c : IsChoice pick) (differs : T → Type 0) (b : T)
      → ((x : T) → differs x → x ≡ b → ⊥)
      → (xs ys : List T) (v : T) (vs : List T) → v ∷ vs ≡ xs ++ ys
      → best v vs ≡ b
      → All differs xs
      → (y : T) × (ys' : List T) × (ys ≡ y ∷ ys') × (best y ys' ≡ b)
  best-end c differs b apart [] ys v vs e h d = (v, vs, sym e, h)
  best-end c differs b apart (x ∷ xs) ys v [] e h d =
      let hit : x ≡ b = unfold best in cc in absurd (apart x d.0 hit)
  best-end c differs b apart (x ∷ xs) ys v (w ∷ ws) e h d = elim (c.pick_or v (best w ws)) [
    | inl first ↦ let hit : x ≡ b = cc (best-cons c v w ws) in absurd (apart x d.0 hit)
    | inr later ↦
        let tail_eq : w ∷ ws ≡ xs ++ ys = cc in
        let same : best w ws ≡ b = cc (best-cons c v w ws) in
        best-end c differs b apart xs ys w ws tail_eq same d.1
  ]
