-- ===== src/UserEvents/Values/Removal.antt =====
-- The removal loop of AggregateColumn takes the values of its range off the total.
use nimble_sdk.Prelude.{
  ℕ, zero, suc, ◌+◌, ◌≡◌, ◌∙◌, refl, ap, Option, none, some, List, [], ◌∷◌, ◌++◌, length,
  length-append, ◌-◌, arith,
}
use nimble_sdk.Prelude.Int.{pos, minus_one, rounds}
use nimble_sdk.UserEvents.Structs.{TableEvent}
use nimble_sdk.UserEvents.Scalar.{Scalar, IsExact}
use nimble_sdk.UserEvents.AggregateColumn.{Column, in_group, remove_loop}
use nimble_sdk.UserEvents.Values.{total, total-append, Reads, done, mine, other}

module _ (s : Scalar) (x : IsExact s) (weight : TableEvent → Option s.T) (c : Column s.T) where
  minus-total :
      (v : s.T) (xs : List s.T) (q : s.T)
      → s.minus (s.plus (total s (v ∷ xs)) q) v ≡ s.plus (total s xs) q
  unfolding total
  minus-total v xs q =
      ap (λ t. s.minus t v) (x.plus_assoc v (total s xs) q) ∙ x.minus-plus v (s.plus (total s xs) q)

  total-nil : (q : s.T) → s.plus (total s []) q ≡ q
  unfolding total
  total-nil q = x.nought-plus q

  -- The loop reads the values of its range, and leaves the count and the total of the rest.
  pub remove_loop-Reads :
      (all_events : List TableEvent) (n i k m : ℕ) (xs : List s.T) (q : s.T)
      → Reads (in_group c) weight all_events n i xs
      → m ≡ length xs + k
      → remove_loop s weight c all_events n (pos i) (pos m) (s.plus (total s xs) q)
        ≡ some (pos k, q)
  unfolding remove_loop
  remove_loop-Reads all_events zero i k m xs q done e =
      let a : m ≡ k = omega arith in rw (a, total-nil q) refl
  remove_loop-Reads all_events (suc n) i k m xs q (mine {xs = rest} ev v g p w r) e =
      let a : m ≡ suc (length rest + k) = omega arith in
      rw (g, p, w, a, minus-total v rest q)
        (remove_loop-Reads all_events n (i + 1) k (length rest + k) rest q r refl)
  remove_loop-Reads all_events (suc n) i k m xs q (other ev g p r) e =
      rw (g, p) (remove_loop-Reads all_events n (i + 1) k m xs q r e)

  -- The loop of a column that goes back to `lo` and is to start at lo + m.
  pub remove_loop-append :
      (all_events : List TableEvent) (lo m : ℕ) (zs xs ys : List s.T) (stored : s.T)
      → c.oldest_index ≡ pos lo
      → c.total_count ≡ pos (length zs)
      → stored ≡ total s zs
      → Reads (in_group c) weight all_events m lo xs
      → zs ≡ xs ++ ys
      → remove_loop s weight c all_events
          (rounds c.oldest_index (pos (lo + m)))
          c.oldest_index
          c.total_count
          stored
        ≡ some (pos (length ys), total s ys)
  unfolding remove_loop
  remove_loop-append all_events lo m zs xs ys stored o t k r e =
      let rounds_m : lo + m - lo ≡ m = omega arith in
      rw (o, t, k, rounds_m, e, length-append xs ys, total-append s x xs ys)
        (remove_loop-Reads all_events m lo (length ys) (length xs + length ys) xs (total s ys) r
          refl)

module _ (s : Scalar) (weight : TableEvent → Option s.T) (c : Column s.T) where
  -- A column that has no event, asked to start at an event, reads before the first event.
  pub remove_loop_faults :
      (all_events : List TableEvent) (k : ℕ) (stored : s.T)
      → c.oldest_index ≡ minus_one
      → remove_loop s weight c all_events
          (rounds c.oldest_index (pos k))
          c.oldest_index
          c.total_count
          stored
        ≡ none
  unfolding remove_loop
  remove_loop_faults all_events k stored o =
      let more : suc 0 + k ≡ suc k = omega arith in rw (o, more) refl
