-- ===== src/UserEvents/ExtremeColumn/Loops.antt =====
-- The two loops of remove_events in MaxColumn.cpp and MinColumn.cpp.
use nimble_sdk.Prelude.{
  ℕ, zero, suc, ◌+◌, ◌-◌, ◌≡◌, refl, ◌⊎◌, inl, inr, true, false, Option, some, List, [], ◌∷◌, All,
  arith, length, get_elem?-lt, Bool-cases, lt→ltb, ltb,
}
use nimble_sdk.Prelude.Int.{ℤ, pos, is_zero}
use nimble_sdk.UserEvents.Structs.{TableEvent}
use nimble_sdk.UserEvents.Scalar.{Scalar}
use nimble_sdk.UserEvents.AggregateColumn.{Column, in_group, column_value}
use nimble_sdk.UserEvents.Values.{Reads, done, mine, other}
use nimble_sdk.UserEvents.ExtremeColumn.{recompute, scan}
use nimble_sdk.UserEvents.ExtremeColumn.Best.{best}

is_zero-suc : (k : ℕ) → is_zero (pos (suc k)) ≡ false
is_zero-suc k = ground arith

module _ (s : Scalar) (pick : s.T → s.T → s.T) (c : Column s.T) (all_events : List TableEvent) where
  -- With something taken in, each further value is picked against the cell.
  recompute_more :
      (n j k : ℕ) (oldest : ℤ) (stored : s.T) (ys : List s.T)
      → Reads (in_group c) (column_value s c) all_events n j ys
      → recompute s pick c all_events n (pos j) (pos (suc k)) oldest stored
        ≡ some (pos (suc k + length ys), oldest, best pick stored ys)
  unfolding recompute best
  recompute_more zero j k oldest stored ys done =
      let a : suc k + 0 ≡ suc k = omega arith in rw a refl
  recompute_more (suc n) j k oldest stored ys (mine {xs = rest} e v g p w r) =
      let more : suc k + 1 ≡ suc (suc k) = omega arith in
      let count : suc (suc k) + length rest ≡ suc k + suc (length rest) = omega arith in
      rw (g, p, w, is_zero-suc k, more, ← count)
        (recompute_more n (j + 1) (suc k) oldest (pick stored v) rest r)
  recompute_more (suc n) j k oldest stored ys (other e g p r) =
      rw (g, p) (recompute_more n (j + 1) k oldest stored ys r)

  -- From the reset on: the count and the best of the values read, or the default as it was.
  abbrev Recomputed : List s.T → Option (ℤ × ℤ × s.T) → Type 0
  Recomputed [] result = (oldest : ℤ) × (result ≡ some (pos 0, oldest, c.default_value))
  Recomputed (y ∷ ys) result =
      (oldest : ℤ) × (result ≡ some (pos (length (y ∷ ys)), oldest, best pick y ys))

  pub recompute-Recomputed :
      (n j : ℕ) (oldest : ℤ) (ys : List s.T)
      → Reads (in_group c) (column_value s c) all_events n j ys
      → Recomputed ys (recompute s pick c all_events n (pos j) (pos 0) oldest c.default_value)
  unfolding recompute
  recompute-Recomputed zero j oldest ys done = (oldest, refl)
  recompute-Recomputed (suc n) j oldest ys (mine {xs = rest} e v g p w r) =
      let count : suc 0 + length rest ≡ suc (length rest) = omega arith in
      (pos j, rw (g, p, w, ← count) (recompute_more n (j + 1) 0 (pos j) v rest r))
  recompute-Recomputed (suc n) j oldest ys (other e g p r) =
      rw (g, p) (recompute-Recomputed n (j + 1) oldest ys r)

  abbrev pub Differs : s.T → s.T → Type 0
  Differs stored x = s.eq x stored ≡ false

  -- The scan of the events i, …, i + n - 1, of which `k` more of the group follow: either one of
  -- them holds the cell's value, and everything from `valid` on is recomputed, or none does.
  pub scan_cases :
      (n i valid k m : ℕ) (stored : s.T) (xs : List s.T)
      → Reads (in_group c) (column_value s c) all_events n i xs
      → m ≡ length xs + k
      → (scan s pick c all_events (pos valid) n (pos i) (pos m) stored
          ≡ recompute s pick c all_events
              (length all_events - valid)
              (pos valid)
              (pos 0)
              c.oldest_index
              c.default_value)
        ⊎ ((scan s pick c all_events (pos valid) n (pos i) (pos m) stored
              ≡ some (pos k, c.oldest_index, stored))
            × All (Differs stored) xs)
  unfolding scan
  scan_cases zero i valid k m stored xs done e = let a : m ≡ k = omega arith in inr (rw a refl, tt)
  scan_cases (suc n) i valid k m stored xs (mine {xs = rest} ev v g p w r) e =
      let a : m ≡ suc (length rest + k) = omega arith in
      let inside : ltb i (length all_events) ≡ true = lt→ltb _ _ (get_elem?-lt all_events i g) in
      elim (Bool-cases (s.eq v stored)) [
        | inl hit ↦ inl (rw (inside, g, p, w, hit) refl)
        | inr miss ↦ elim (scan_cases n (i + 1) valid k (length rest + k) stored rest r refl) [
          | inl again ↦ inl (rw (inside, g, p, w, miss, a) again)
          | inr (end, d) ↦ inr (rw (inside, g, p, w, miss, a) end, (miss, d))
        ]
      ]
  scan_cases (suc n) i valid k m stored xs (other ev g p r) e =
      let inside : ltb i (length all_events) ≡ true = lt→ltb _ _ (get_elem?-lt all_events i g) in
      elim (scan_cases n (i + 1) valid k m stored xs r e) [
        | inl again ↦ inl (rw (inside, g, p) again)
        | inr (end, d) ↦ inr (rw (inside, g, p) end, d)
      ]
