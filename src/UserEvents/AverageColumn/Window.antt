-- ===== src/UserEvents/AverageColumn/Window.antt =====
-- AverageColumn holds the mean of its column over the events of its group in the window.
use nimble_sdk.Prelude.{
  ℕ, ◌+◌, ◌≡◌, ◌∙◌, refl, ap, ap₂, if◌then◌else◌, some, List, [], ◌∷◌, ◌++◌, length, arith,
  length-append,
}
use nimble_sdk.Prelude.Int.{pos, minus_one, suc_ℤ, is_zero}
use nimble_sdk.UserEvents.Structs.{TableEvent}
use nimble_sdk.UserEvents.Scalar.{Scalar, IsExact}
use nimble_sdk.UserEvents.AggregateColumn.{Column, Outcome, in_group, column_value}
use nimble_sdk.UserEvents.Values.{total, total-snoc, Reads, done, mine, other, Reads-split}
use nimble_sdk.UserEvents.Values.Removal.{remove_loop-append}
use nimble_sdk.UserEvents.Represents.{
  Represents, empty, filled, settle, or_default, Represents-other, Represents-mine,
}
use nimble_sdk.UserEvents.AverageColumn

module _ (s : Scalar) where
  open s use {T, plus, divide}

  abbrev pub mean : List T → T
  mean xs = divide (total s xs) (pos (length xs))

  abbrev pub HoldsAverage : Column T → T → List T → Type 0
  HoldsAverage c stored xs =
      (c.running_sum ≡ total s xs) × (stored ≡ or_default c.default_value mean xs)

  -- If the scalars add exactly and event i has no blank cell, adding it to a column that stands
  -- for all the events of its group among from, …, i - 1, with their number, sum and mean and an
  -- oldest index that none of them precedes, makes it stand for those among from, …, i, and
  -- changes nothing else of it.
  pub average_add_event-Represents :
      (x : IsExact s) (c : Column T) (stored : T) (all_events : List TableEvent) (from i : ℕ)
      (ys : List T)
      → Reads (in_group c) (column_value s c) all_events 1 i ys
      → Represents HoldsAverage (column_value s c) all_events from i c stored
      → (c' : Column T) × (stored' : T) × (AverageColumn.add_event s c stored all_events i
          ≡ some (c', stored'))
        × (c' ≡ record c {
          total_count = c'.total_count;
          oldest_index = c'.oldest_index;
          running_sum = c'.running_sum;
        })
        × Represents HoldsAverage (column_value s c) all_events from (i + 1) c' stored'
  unfolding AverageColumn.add_event
  average_add_event-Represents x c stored all_events from i ys (other e g p done) h =
      (c, stored, rw (g, p) refl, refl, Represents-other _ _ all_events from i c stored e g p h)
  average_add_event-Represents x c stored all_events from i ys (mine e w g p q done)
        (empty m h r a b d) =
      (
        record c { total_count = pos 1; oldest_index = pos i; running_sum = plus c.running_sum w },
        divide (plus c.running_sum w) (pos 1),
        rw (g, p, q, a, b) refl,
        refl,
        filled m i 1 w [] h r refl refl (mine e w g p q done) refl
            (sum_w, ap (λ t. divide t (pos 1)) sum_w),
      )
    where
      sum_w : plus c.running_sum w ≡ total s (w ∷ [])
      sum_w = rw d.0 (total-snoc s x [] w)
  average_add_event-Represents x c stored all_events from i ys (mine e w g p q done)
        (filled m lo n v vs l b h o r t k) =
      (
        record c { total_count = suc_ℤ c.total_count; running_sum = plus c.running_sum w },
        divide (plus c.running_sum w) (suc_ℤ c.total_count),
        rw (g, p, q, o) refl,
        refl,
        Represents-mine _ _ all_events from i m lo n c _ _ w v vs e g p q l b h o r t refl (
          sum_w,
          ap₂ divide sum_w (ap suc_ℤ t ∙ ap pos (omega (arith, length-append vs (w ∷ [])))),
        ),
      )
    where
      sum_w : plus c.running_sum w ≡ total s (v ∷ vs ++ w ∷ [])
      sum_w = rw k.0 (total-snoc s x (v ∷ vs) w)

  -- If the scalars add exactly and no event of the group has a blank cell, removing up to the
  -- event lo + m leaves the column with the events from there on, exactly: their number, their
  -- sum and their mean, or the default and no event if none of them is of the group.
  pub average_remove_events-settle :
      (x : IsExact s) (c : Column T) (stored : T) (all_events : List TableEvent) (lo m n : ℕ)
      (zs : List T)
      → c.oldest_index ≡ pos lo
      → Reads (in_group c) (column_value s c) all_events (m + n) lo zs
      → c.total_count ≡ pos (length zs)
      → c.running_sum ≡ total s zs
      → (ys : List T) × Reads (in_group c) (column_value s c) all_events n (lo + m) ys
        × (AverageColumn.remove_events s c stored all_events (pos (lo + m))
            ≡ some (
              record (settle c (lo + m) ys) { running_sum = total s ys },
              or_default c.default_value mean ys,
            ))
  unfolding AverageColumn.remove_events total
  average_remove_events-settle x c stored all_events lo m n zs o r t k =
      let (xs, ys, a, b, e) = Reads-split all_events m n lo zs r in
      let removed =
        remove_loop-append s x (column_value s c) c all_events lo m zs xs ys c.running_sum o t k a
          e in
      (ys, b, rw removed (finish ys))
    where
      finish :
          (ys : List T)
          → if◌then◌else◌ {A = Outcome T}
              (is_zero (pos (length ys)))
              (some (
                record c {
                  total_count = pos (length ys);
                  oldest_index = minus_one;
                  running_sum = s.nought;
                },
                c.default_value,
              ))
              (some (
                record c {
                  total_count = pos (length ys);
                  oldest_index = pos (lo + m);
                  running_sum = total s ys;
                },
                divide (total s ys) (pos (length ys)),
              ))
            ≡ some (
              record (settle c (lo + m) ys) { running_sum = total s ys },
              or_default c.default_value mean ys,
            )
      finish [] = refl
      finish (y ∷ ys) = ground arith
