-- ===== src/UserEvents/Represents.antt =====
-- A column against the events of a window from `from` up to `hi`: it holds what the weights of all
-- the events of its group there come to, and none of them precedes its oldest index.
use mathlib.Core.List.{append-nil}
use nimble_sdk.Prelude.{
  ℕ, suc, ◌+◌, ◌≡◌, ◌∙◌, refl, ap, List, [], ◌∷◌, ◌++◌, Option, some, true, false, get_elem?,
  if◌then◌else◌, length, length-append, arith,
}
use nimble_sdk.Prelude.Int.{pos, minus_one, suc_ℤ, is_zero}
use nimble_sdk.UserEvents.Structs.{TableEvent}
use nimble_sdk.UserEvents.AggregateColumn.{Column, Outcome, in_group}
use nimble_sdk.UserEvents.Values.{Reads, done, mine, other, Reads-snoc}

-- The column stands for all events of its group among `from`, …, `hi` - 1. `Good c stored xs`: its
-- cell, and its private sum, are those of the weights `xs`.
pub data Represents {T : Type 0} (Good : Column T → T → List T → Type 0)
    (weight : TableEvent → Option T) (all_events : List TableEvent) (from hi : ℕ) (c : Column T)
    (stored : T) : Type 0 where
  -- None of them is of the group.
  empty :
      (m : ℕ)
      → from + m ≡ hi
      → Reads (in_group c) weight all_events m from []
      → c.total_count ≡ pos 0
      → c.oldest_index ≡ minus_one
      → Good c stored []
      → Represents Good weight all_events from hi c stored
  -- `lo` is the column's oldest index: none of the events before it is of the group.
  filled :
      (m lo n : ℕ) (x : T) (xs : List T)
      → from + m ≡ lo
      → Reads (in_group c) weight all_events m from []
      → lo + n ≡ hi
      → c.oldest_index ≡ pos lo
      → Reads (in_group c) weight all_events n lo (x ∷ xs)
      → c.total_count ≡ pos (length (x ∷ xs))
      → Good c stored (x ∷ xs)
      → Represents Good weight all_events from hi c stored

-- The bookkeeping of a column whose window now starts at `k` and has the weights `xs`.
abbrev pub settle : {T : Type 0} → Column T → ℕ → List T → Column T
settle c k [] = record c { total_count = pos 0; oldest_index = minus_one }
settle c k (x ∷ xs) = record c { total_count = pos (length (x ∷ xs)); oldest_index = pos k }

-- The cell of a column with the weights `xs`: the default while there are none.
abbrev pub or_default : {T : Type 0} → T → (List T → T) → List T → T
or_default default_value value_of [] = default_value
or_default default_value value_of (x ∷ xs) = value_of (x ∷ xs)

module _ {T : Type 0} (Good : Column T → T → List T → Type 0) (weight : TableEvent → Option T) where
  -- An event of another group makes the window longer and changes nothing.
  pub Represents-other :
      (all_events : List TableEvent) (from i : ℕ) (c : Column T) (stored : T) (e : TableEvent)
      → get_elem? all_events i ≡ some e
      → in_group c e ≡ some false
      → Represents Good weight all_events from i c stored
      → Represents Good weight all_events from (i + 1) c stored
  Represents-other all_events from i c stored e g p (empty m h r a b d) =
      empty (suc m) (omega arith)
        (Reads-snoc all_events m from {ys = []} r (rw h (other e g p done))) a b d
  Represents-other all_events from i c stored e g p (filled m lo n v vs u q h o r t k) =
      filled m lo (suc n) v vs u q (omega arith) o
        (rw (append-nil (v ∷ vs)) at
          (Reads-snoc all_events n lo {ys = []} r (rw h (other e g p done))))
        t k

  -- An event of the group: the count goes up and its weight comes last.
  pub Represents-mine :
      (all_events : List TableEvent) (from i m lo n : ℕ) (c c' : Column T) (stored' w v : T)
      (vs : List T) (e : TableEvent)
      → get_elem? all_events i ≡ some e
      → in_group c' e ≡ some true
      → weight e ≡ some w
      → from + m ≡ lo
      → Reads (in_group c') weight all_events m from []
      → lo + n ≡ i
      → c'.oldest_index ≡ pos lo
      → Reads (in_group c') weight all_events n lo (v ∷ vs)
      → c.total_count ≡ pos (length (v ∷ vs))
      → c'.total_count ≡ suc_ℤ c.total_count
      → Good c' stored' (v ∷ vs ++ w ∷ [])
      → Represents Good weight all_events from (i + 1) c' stored'
  Represents-mine all_events from i m lo n c c' stored' w v vs e g p q l b h o r t u k =
      filled m lo (suc n) v (vs ++ w ∷ []) l b (omega arith) o
        (Reads-snoc all_events n lo {ys = w ∷ []} r (rw h (mine e w g p q done)))
        (u ∙ ap suc_ℤ t ∙ ap pos (omega (arith, length-append vs (w ∷ [])))) k

-- What the end of `remove_events` does with the count and the value that its loop leaves.
pub settle_lem :
    {T : Type 0} (c : Column T) (k : ℕ) (ys : List T) (value_of : List T → T)
    → if◌then◌else◌ {A = Outcome T}
        (is_zero (pos (length ys)))
        (some
          (record c { total_count = pos (length ys); oldest_index = minus_one }, c.default_value))
        (some (record c { total_count = pos (length ys); oldest_index = pos k }, value_of ys))
      ≡ some (settle c k ys, or_default c.default_value value_of ys)
settle_lem c k [] value_of = refl
settle_lem c k (y ∷ ys) value_of = ground arith
