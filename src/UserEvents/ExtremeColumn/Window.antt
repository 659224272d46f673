-- ===== src/UserEvents/ExtremeColumn/Window.antt =====
-- MaxColumn and MinColumn hold the largest and the least value of their group in the window.
use mathlib.Core.Bool.{false≢true}
use nimble_sdk.Prelude.{
  ℕ, ◌+◌, ◌-◌, ◌≡◌, ◌∙◌, refl, sym, ap, inl, inr, true, false, some, List, [], ◌∷◌, ◌++◌, length,
  arith, length-append, if◌then◌else◌,
}
use nimble_sdk.Prelude.Int.{ℤ, pos, minus_one, suc_ℤ, is_zero, rounds}
use nimble_sdk.UserEvents.Structs.{TableEvent}
use nimble_sdk.UserEvents.Scalar.{Scalar}
use nimble_sdk.UserEvents.AggregateColumn.{Column, Outcome, in_group, column_value}
use nimble_sdk.UserEvents.Values.{Reads, done, mine, other, Reads-split}
use nimble_sdk.UserEvents.Represents.{
  Represents, empty, filled, settle, Represents-other, Represents-mine,
}
use nimble_sdk.UserEvents.ExtremeColumn
use nimble_sdk.UserEvents.ExtremeColumn.{scan, recompute}
use nimble_sdk.UserEvents.ExtremeColumn.Best.{IsChoice, best, best-snoc, best-end}
use nimble_sdk.UserEvents.ExtremeColumn.Loops.{recompute-Recomputed, scan_cases}

module _ (s : Scalar) (pick : s.T → s.T → s.T) where
  -- The cell: the default while there is no event, the best value from then on.
  abbrev pub best_or : s.T → List s.T → s.T
  best_or default_value [] = default_value
  best_or default_value (x ∷ xs) = best pick x xs

  abbrev pub HoldsBest : Column s.T → s.T → List s.T → Type 0
  HoldsBest c stored xs = stored ≡ best_or c.default_value xs

  -- If event i has no blank cell, adding it to a column that stands for all the events of its
  -- group among from, …, i - 1, with their number and best value and an oldest index that none of
  -- them precedes, makes it stand for those among from, …, i, and changes nothing else of it.
  pub extreme_add_event-Represents :
      (c : Column s.T) (stored : s.T) (all_events : List TableEvent) (from i : ℕ) (ys : List s.T)
      → Reads (in_group c) (column_value s c) all_events 1 i ys
      → Represents HoldsBest (column_value s c) all_events from i c stored
      → (c' : Column s.T) × (stored' : s.T) × (ExtremeColumn.add_event s pick c stored all_events i
          ≡ some (c', stored'))
        × (c' ≡ record c { total_count = c'.total_count; oldest_index = c'.oldest_index })
        × Represents HoldsBest (column_value s c) all_events from (i + 1) c' stored'
  unfolding ExtremeColumn.add_event best
  extreme_add_event-Represents c stored all_events from i ys (other e g p done) h =
      (c, stored, rw (g, p) refl, refl, Represents-other _ _ all_events from i c stored e g p h)
  extreme_add_event-Represents c stored all_events from i ys (mine e w g p q done)
        (empty m h r a b d) =
      (
        record c { total_count = pos 1; oldest_index = pos i },
        w,
        rw (g, p, q, a, b) refl,
        refl,
        filled m i 1 w [] h r refl refl (mine e w g p q done) refl refl,
      )
  extreme_add_event-Represents c stored all_events from i ys (mine e w g p q done)
        (filled m lo n v vs l b h o r t k) =
      (
        record c { total_count = suc_ℤ c.total_count },
        pick stored w,
        rw (g, p, q, o) refl,
        refl,
        Represents-mine _ _ all_events from i m lo n c _ _ w v vs e g p q l b h o r t refl
            (rw k (sym (best-snoc pick v vs w))),
      )

  recomputed :
      (c : Column s.T) (all_events : List TableEvent) (n j : ℕ) (oldest : ℤ) (ys : List s.T)
      → Reads (in_group c) (column_value s c) all_events n j ys
      → (oldest' : ℤ) × (recompute s pick c all_events n (pos j) (pos 0) oldest c.default_value
          ≡ some (pos (length ys), oldest', best_or c.default_value ys))
  recomputed c all_events n j oldest [] r = recompute-Recomputed s pick c all_events n j oldest [] r
  recomputed c all_events n j oldest (y ∷ ys) r =
      recompute-Recomputed s pick c all_events n j oldest (y ∷ ys) r

  apart : ((a : s.T) → s.eq a a ≡ true) → (b x : s.T) → s.eq x b ≡ false → x ≡ b → ⊥
  apart eq_refl b x d e = false≢true (sym d ∙ ap (λ t. s.eq t b) e ∙ eq_refl b)

  -- The arguments of the scan, read off the column.
  scan_start :
      (c : Column s.T) (stored : s.T) (all_events : List TableEvent) (valid : ℤ) (n m : ℕ)
      (i i' count count' : ℤ)
      → n ≡ m
      → i ≡ i'
      → count ≡ count'
      → scan s pick c all_events valid n i count stored
        ≡ scan s pick c all_events valid m i' count' stored
  scan_start c stored all_events valid n m i i' count count' p q r = cc

  scanned :
      (choice : IsChoice pick) (eq_refl : (a : s.T) → s.eq a a ≡ true) (c : Column s.T)
      (stored : s.T) (all_events : List TableEvent) (lo m n : ℕ) (z : s.T) (zs xs ys : List s.T)
      → c.oldest_index ≡ pos lo
      → lo + m + n ≡ length all_events
      → c.total_count ≡ pos (length (z ∷ zs))
      → stored ≡ best pick z zs
      → Reads (in_group c) (column_value s c) all_events m lo xs
      → Reads (in_group c) (column_value s c) all_events n (lo + m) ys
      → z ∷ zs ≡ xs ++ ys
      → (oldest : ℤ) × (scan s pick c all_events
            (pos (lo + m))
            (rounds c.oldest_index (pos (lo + m)))
            c.oldest_index
            c.total_count
            stored
          ≡ some (pos (length ys), oldest, best_or c.default_value ys))
  scanned choice eq_refl c stored all_events lo m n z zs xs ys o len t k a b e =
      let rounds_m : lo + m - lo ≡ m = omega arith in
      let left : length all_events - (lo + m) ≡ n = omega arith in
      let count : length (z ∷ zs) ≡ length xs + length ys = ap length e ∙ length-append xs ys in
      let at_start : scan s pick c all_events (pos (lo + m)) (rounds c.oldest_index (pos (lo + m)))
            c.oldest_index c.total_count stored
          ≡ scan s pick c all_events (pos (lo + m)) m (pos lo) (pos (length (z ∷ zs))) stored =
        scan_start c stored all_events (pos (lo + m)) _ m _ (pos lo) _ _
          (ap (λ t. rounds t (pos (lo + m))) o ∙ rounds_m) o t in
      elim (scan_cases s pick c all_events m lo (lo + m) (length ys) (length (z ∷ zs)) stored xs a
        count) [
          | inl again ↦
              let (oldest, found) = recomputed c all_events n (lo + m) c.oldest_index ys b in
              (oldest, at_start ∙ again ∙ rw left found)
          | inr (end, d) ↦
              let (y, ys', split, same) =
                best-end pick choice (λ x. s.eq x stored ≡ false) stored (apart eq_refl stored) xs
                  ys z zs e (sym k) d in
              (c.oldest_index, at_start ∙ end ∙ rw (split, ← same) refl)
        ]

  finish :
      (c : Column s.T) (k : ℕ) (ys : List s.T)
      → if◌then◌else◌ {A = Outcome s.T}
          (is_zero (pos (length ys)))
          (some
            (record c { total_count = pos (length ys); oldest_index = minus_one }, c.default_value))
          (some (
            record c { total_count = pos (length ys); oldest_index = pos k },
            best_or c.default_value ys,
          ))
        ≡ some (settle c k ys, best_or c.default_value ys)
  finish c k [] = refl
  finish c k (y ∷ ys) = ground arith

  -- If picking the better of two values is associative and gives one of them, every value equals
  -- itself and no event of the group has a blank cell, removing up to the event lo + m, with n
  -- events left in all, leaves the column with the events from there on, exactly: their number
  -- and the best value among them, or the default and no event if none of them is of the group.
  pub extreme_remove_events-settle :
      (choice : IsChoice pick) (eq_refl : (a : s.T) → s.eq a a ≡ true) (c : Column s.T)
      (stored : s.T) (all_events : List TableEvent) (lo m n : ℕ) (z : s.T) (zs : List s.T)
      → c.oldest_index ≡ pos lo
      → Reads (in_group c) (column_value s c) all_events (m + n) lo (z ∷ zs)
      → lo + m + n ≡ length all_events
      → c.total_count ≡ pos (length (z ∷ zs))
      → stored ≡ best pick z zs
      → (ys : List s.T) × Reads (in_group c) (column_value s c) all_events n (lo + m) ys
        × (ExtremeColumn.remove_events s pick c stored all_events (pos (lo + m))
            ≡ some (settle c (lo + m) ys, best_or c.default_value ys))
  unfolding ExtremeColumn.remove_events
  extreme_remove_events-settle choice eq_refl c stored all_events lo m n z zs o r len t k =
      let (xs, ys, a, b, e) = Reads-split all_events m n lo (z ∷ zs) r in
      let (oldest, found) =
        scanned choice eq_refl c stored all_events lo m n z zs xs ys o len t k a b e in
      (ys, b, rw found (finish c (lo + m) ys))
