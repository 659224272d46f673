-- ===== src/UserEvents/SumColumn/Window.antt =====
-- SumColumn holds the sum of its column over the events of its group in the window.
use nimble_sdk.Prelude.{ℕ, ◌+◌, ◌≡◌, refl, sym, some, List, [], ◌∷◌, length}
use nimble_sdk.Prelude.Int.{pos, suc_ℤ}
use nimble_sdk.UserEvents.Structs.{TableEvent}
use nimble_sdk.UserEvents.Scalar.{Scalar, IsExact}
use nimble_sdk.UserEvents.AggregateColumn.{Column, in_group, column_value}
use nimble_sdk.UserEvents.Values.{
  total, total_one, total-snoc, Reads, done, mine, other, Reads-split,
}
use nimble_sdk.UserEvents.Values.Removal.{remove_loop-append}
use nimble_sdk.UserEvents.Represents.{
  Represents, empty, filled, settle, settle_lem, or_default, Represents-other, Represents-mine,
}
use nimble_sdk.UserEvents.SumColumn

module _ (s : Scalar) where
  abbrev pub HoldsSum : Column s.T → s.T → List s.T → Type 0
  HoldsSum c stored xs = stored ≡ or_default c.default_value (total s) xs

  -- If the scalars add exactly and event i has no blank cell, adding it to a column that stands
  -- for all the events of its group among from, …, i - 1, with their number and sum and an oldest
  -- index that none of them precedes, makes it stand for those among from, …, i, and changes
  -- nothing else of it.
  pub sum_add_event-Represents :
      (x : IsExact s) (c : Column s.T) (stored : s.T) (all_events : List TableEvent) (from i : ℕ)
      (ys : List s.T)
      → Reads (in_group c) (column_value s c) all_events 1 i ys
      → Represents HoldsSum (column_value s c) all_events from i c stored
      → (c' : Column s.T) × (stored' : s.T) × (SumColumn.add_event s c stored all_events i
          ≡ some (c', stored'))
        × (c' ≡ record c { total_count = c'.total_count; oldest_index = c'.oldest_index })
        × Represents HoldsSum (column_value s c) all_events from (i + 1) c' stored'
  unfolding SumColumn.add_event
  sum_add_event-Represents x c stored all_events from i ys (other e g p done) h =
      (c, stored, rw (g, p) refl, refl, Represents-other _ _ all_events from i c stored e g p h)
  sum_add_event-Represents x c stored all_events from i ys (mine e w g p q done)
        (empty m h r a b d) =
      (
        record c { total_count = pos 1; oldest_index = pos i },
        w,
        rw (g, p, q, a, b) refl,
        refl,
        filled m i 1 w [] h r refl refl (mine e w g p q done) refl (sym (total_one s x w)),
      )
  sum_add_event-Represents x c stored all_events from i ys (mine e w g p q done)
        (filled m lo n v vs l b h o r t k) =
      (
        record c { total_count = suc_ℤ c.total_count },
        s.plus stored w,
        rw (g, p, q, o) refl,
        refl,
        Represents-mine _ _ all_events from i m lo n c _ _ w v vs e g p q l b h o r t refl
            (rw k (total-snoc s x (v ∷ vs) w)),
      )

  -- If the scalars add exactly and no event of the group has a blank cell, removing up to the
  -- event lo + m leaves the column with the events from there on, exactly: their number and their
  -- sum, or the default and no event if none of them is of the group.
  pub sum_remove_events-settle :
      (x : IsExact s) (c : Column s.T) (stored : s.T) (all_events : List TableEvent) (lo m n : ℕ)
      (zs : List s.T)
      → c.oldest_index ≡ pos lo
      → Reads (in_group c) (column_value s c) all_events (m + n) lo zs
      → c.total_count ≡ pos (length zs)
      → stored ≡ total s zs
      → (ys : List s.T) × Reads (in_group c) (column_value s c) all_events n (lo + m) ys
        × (SumColumn.remove_events s c stored all_events (pos (lo + m))
            ≡ some (settle c (lo + m) ys, or_default c.default_value (total s) ys))
  unfolding SumColumn.remove_events
  sum_remove_events-settle x c stored all_events lo m n zs o r t k =
      let (xs, ys, a, b, e) = Reads-split all_events m n lo zs r in
      let removed =
        remove_loop-append s x (column_value s c) c all_events lo m zs xs ys stored o t k a e in
      (ys, b, rw removed (settle_lem c (lo + m) ys (total s)))
