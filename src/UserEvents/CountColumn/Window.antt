-- ===== src/UserEvents/CountColumn/Window.antt =====
-- CountColumn holds the number of the events of its group in the window, as the sum of so many ones.
use nimble_sdk.Prelude.{ℕ, ◌+◌, ◌≡◌, refl, sym, some, List, [], ◌∷◌, length}
use nimble_sdk.Prelude.Int.{pos, suc_ℤ}
use nimble_sdk.UserEvents.Structs.{TableEvent}
use nimble_sdk.UserEvents.Scalar.{Scalar, IsExact}
use nimble_sdk.UserEvents.AggregateColumn.{Column, in_group}
use nimble_sdk.UserEvents.Values.{
  total, total_one, total-snoc, Reads, done, mine, other, Reads-split,
}
use nimble_sdk.UserEvents.Values.Removal.{remove_loop-append}
use nimble_sdk.UserEvents.Represents.{
  Represents, empty, filled, settle, settle_lem, or_default, Represents-other, Represents-mine,
}
use nimble_sdk.UserEvents.CountColumn

module _ (s : Scalar) where
  abbrev pub HoldsCount : Column s.T → s.T → List s.T → Type 0
  HoldsCount c stored xs = stored ≡ or_default c.default_value (total s) xs

  -- If the scalars add exactly, adding event i to a column that stands for all the events of its
  -- group among from, …, i - 1, with their number and an oldest index that none of them precedes,
  -- makes it stand for those among from, …, i, and changes nothing else of it.
  pub count_add_event-Represents :
      (x : IsExact s) (c : Column s.T) (stored : s.T) (all_events : List TableEvent) (from i : ℕ)
      (ys : List s.T)
      → Reads (in_group c) (λ e. some s.one) all_events 1 i ys
      → Represents HoldsCount (λ e. some s.one) all_events from i c stored
      → (c' : Column s.T) × (stored' : s.T) × (CountColumn.add_event s c stored all_events i
          ≡ some (c', stored'))
        × (c' ≡ record c { total_count = c'.total_count; oldest_index = c'.oldest_index })
        × Represents HoldsCount (λ e. some s.one) all_events from (i + 1) c' stored'
  unfolding CountColumn.add_event
  count_add_event-Represents x c stored all_events from i ys (other e g p done) h =
      (c, stored, rw (g, p) refl, refl, Represents-other _ _ all_events from i c stored e g p h)
  count_add_event-Represents x c stored all_events from i ys (mine e w g p q done)
        (empty m h r a b d) =
      (
        record c { total_count = pos 1; oldest_index = pos i },
        s.one,
        rw (g, p, a, b) refl,
        refl,
        filled m i 1 s.one [] h r refl refl (mine e s.one g p refl done) refl
            (sym (total_one s x s.one)),
      )
  count_add_event-Represents x c stored all_events from i ys (mine e w g p q done)
        (filled m lo n v vs l b h o r t k) =
      (
        record c { total_count = suc_ℤ c.total_count },
        s.plus stored s.one,
        rw (g, p, o) refl,
        refl,
        Represents-mine _ _ all_events from i m lo n c _ _ s.one v vs e g p refl l b h o r t refl
            (rw k (total-snoc s x (v ∷ vs) s.one)),
      )

  -- If the scalars add exactly, removing up to the event lo + m leaves the column with the events
  -- from there on, exactly: their number and their sum of ones, or the default and no event if
  -- none of them is of the group.
  pub count_remove_events-settle :
      (x : IsExact s) (c : Column s.T) (stored : s.T) (all_events : List TableEvent) (lo m n : ℕ)
      (zs : List s.T)
      → c.oldest_index ≡ pos lo
      → Reads (in_group c) (λ e. some s.one) all_events (m + n) lo zs
      → c.total_count ≡ pos (length zs)
      → stored ≡ total s zs
      → (ys : List s.T) × Reads (in_group c) (λ e. some s.one) all_events n (lo + m) ys
        × (CountColumn.remove_events s c stored all_events (pos (lo + m))
            ≡ some (settle c (lo + m) ys, or_default c.default_value (total s) ys))
  unfolding CountColumn.remove_events
  count_remove_events-settle x c stored all_events lo m n zs o r t k =
      let (xs, ys, a, b, e) = Reads-split all_events m n lo zs r in
      let removed =
        remove_loop-append s x (λ e. some s.one) c all_events lo m zs xs ys stored o t k a e in
      (ys, b, rw removed (settle_lem c (lo + m) ys (total s)))
