-- ===== src/UserEvents/Values.antt =====
-- What a column should hold: the values that the events of its group have in a range of events.
pub mod Removal
use nimble_sdk.Prelude.{
  ℕ, zero, suc, ◌+◌, ◌≡◌, ◌∙◌, refl, sym, ap, Bool, true, false, Option, none, some, List, [], ◌∷◌,
  ◌++◌, get_elem?, arith,
}
use nimble_sdk.UserEvents.Structs.{TableEvent}
use nimble_sdk.UserEvents.Scalar.{Scalar, IsExact}

-- The sum of a list, from the right.
unfoldable pub total : (s : Scalar) → List s.T → s.T
total s [] = s.nought
total s (x ∷ xs) = s.plus x (total s xs)

pub total-append :
    (s : Scalar) (x : IsExact s) (xs ys : List s.T)
    → total s (xs ++ ys) ≡ s.plus (total s xs) (total s ys)
unfolding total
total-append s x [] ys = sym (x.nought-plus (total s ys))
total-append s x (v ∷ xs) ys =
    rw (total-append s x xs ys) (sym (x.plus_assoc v (total s xs) (total s ys)))

pub total_one : (s : Scalar) (x : IsExact s) (w : s.T) → total s (w ∷ []) ≡ w
unfolding total
total_one s x w = x.plus-nought w

pub total-snoc :
    (s : Scalar) (x : IsExact s) (xs : List s.T) (w : s.T)
    → s.plus (total s xs) w ≡ total s (xs ++ w ∷ [])
total-snoc s x xs w =
    sym (total-append s x xs (w ∷ []) ∙ ap (s.plus (total s xs)) (total_one s x w))

-- `Reads same weight all_events n i xs`: the events i, …, i + n - 1 are there, and `xs` are the
-- weights of those among them that `same` finds to be of the group.
pub data Reads {T : Type 0} (same : TableEvent → Option Bool) (weight : TableEvent → Option T)
    (all_events : List TableEvent) : ℕ → ℕ → List T → Type 0 where
  done : {i : ℕ} → Reads same weight all_events zero i []
  mine :
      {n i : ℕ} {xs : List T} (e : TableEvent) (v : T)
      → get_elem? all_events i ≡ some e
      → same e ≡ some true
      → weight e ≡ some v
      → Reads same weight all_events n (i + 1) xs
      → Reads same weight all_events (suc n) i (v ∷ xs)
  other :
      {n i : ℕ} {xs : List T} (e : TableEvent)
      → get_elem? all_events i ≡ some e
      → same e ≡ some false
      → Reads same weight all_events n (i + 1) xs
      → Reads same weight all_events (suc n) i xs

abbrev Splits :
    {T : Type 0}
    → (TableEvent → Option Bool)
    → (TableEvent → Option T)
    → List TableEvent
    → ℕ
    → ℕ
    → ℕ
    → List T
    → Type 0
Splits {T} same weight all_events m n i zs =
    (xs ys : List T) × Reads same weight all_events m i xs
    × Reads same weight all_events n (i + m) ys
    × (zs ≡ xs ++ ys)

module _ {T : Type 0} {same : TableEvent → Option Bool} {weight : TableEvent → Option T} where
  -- One more event in front of a range that splits.
  split_more :
      (all_events : List TableEvent) (m n i : ℕ) (zs : List T)
      → Reads same weight all_events (suc (m + n)) i zs
      → ((zs' : List T)
          → Reads same weight all_events (m + n) (i + 1) zs'
          → Splits same weight all_events m n (i + 1) zs')
      → Splits same weight all_events (suc m) n i zs
  split_more all_events m n i zs (mine {xs = rest} e v g p w r) rec =
      let (xs, ys, a, b, c) = rec rest r in
      let d : i + suc m ≡ i + 1 + m = omega arith in
      (v ∷ xs, ys, mine e v g p w a, rw d b, rw c refl)
  split_more all_events m n i zs (other e g p r) rec =
      let (xs, ys, a, b, c) = rec zs r in
      let d : i + suc m ≡ i + 1 + m = omega arith in (xs, ys, other e g p a, rw d b, c)

  -- A range falls into two at any point.
  pub Reads-split :
      (all_events : List TableEvent) (m n i : ℕ) (zs : List T)
      → Reads same weight all_events (m + n) i zs
      → (xs ys : List T) × Reads same weight all_events m i xs
        × Reads same weight all_events n (i + m) ys
        × (zs ≡ xs ++ ys)
  Reads-split all_events zero n i zs r =
      let a : zero + n ≡ n = omega arith in
      let b : i + zero ≡ i = omega arith in ([], zs, done, rw b (rw a at r), refl)
  Reads-split all_events (suc m) n i zs r =
      let a : suc m + n ≡ suc (m + n) = omega arith in
      split_more all_events m n i zs (rw a at r) (Reads-split all_events m n (i + 1))

  -- An event at the end of a range.
  pub Reads-snoc :
      (all_events : List TableEvent) (m i : ℕ) {xs ys : List T}
      → Reads same weight all_events m i xs
      → Reads same weight all_events 1 (i + m) ys
      → Reads same weight all_events (suc m) i (xs ++ ys)
  Reads-snoc all_events zero i done r = let a : i + zero ≡ i = omega arith in rw a at r
  Reads-snoc all_events (suc m) i (mine e v g p w rest) r =
      let a : i + suc m ≡ i + 1 + m = omega arith in
      mine e v g p w (Reads-snoc all_events m (i + 1) rest (rw a at r))
  Reads-snoc all_events (suc m) i (other e g p rest) r =
      let a : i + suc m ≡ i + 1 + m = omega arith in
      other e g p (Reads-snoc all_events m (i + 1) rest (rw a at r))
