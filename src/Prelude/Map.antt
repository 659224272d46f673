-- ===== src/Prelude/Map.antt =====
-- `std::map<std::string, V>`: an association list that `insert` keeps in the order of its keys,
-- which is the order in which the source iterates over it.
use Prim.Native.Nat.{Ordering}
use mathlib.Core.Path.{◌≡◌, refl}
use mathlib.Core.Bool.{Bool, true, false}
use mathlib.Core.List.{List, [], ◌∷◌, map}
use mathlib.Core.Option.{Option, none, some}
use native.Mathlib.Omega.{arith}
use nimble_sdk.Prelude.Texts.{Text, compare_text, compare_text_refl, compare_text_eq, eq_text}
use nimble_sdk.Prelude.Tests.{if◌then◌else◌}

abbrev pub Map {ℓ} : Type ℓ → Type ℓ
Map V = List (Text × V)

abbrev pub is_some {ℓ} : {A : Type ℓ} → Option A → Bool
is_some none = false
is_some (some a) = true

module _ {ℓ} {V : Type ℓ} where
  unfoldable pub find : Text → Map V → Option V
  find k [] = none
  find k ((j, w) ∷ m) = if eq_text k j then some w else find k m

  unfoldable pub insert : Text → V → Map V → Map V
  insert k v [] = (k, v) ∷ []
  insert k v ((j, w) ∷ m) = elim (compare_text k j) [
    | Ordering.lt ↦ (k, v) ∷ (j, w) ∷ m
    | Ordering.eq ↦ (j, v) ∷ m
    | Ordering.gt ↦ (j, w) ∷ insert k v m
  ]

  -- `m.find(k) != m.end()`.
  abbrev pub contains : Text → Map V → Bool
  contains k m = is_some (find k m)

  abbrev pub keys : Map V → List Text
  keys = map (λ e. e.0)

  pub find-insert :
      (j k : Text) (v : V) (m : Map V)
      → find j (insert k v m) ≡ (if eq_text j k then some v else find j m)
  unfolding find insert
  find-insert j k v [] = refl
  find-insert j k v ((i, w) ∷ m) = ground (
    arith,
    find-insert j k v m,
    compare_text_eq j k,
    compare_text_eq k i,
    compare_text_eq j i,
    compare_text_refl i,
    compare_text_refl j,
    compare_text_refl k,
  )

  pub find-insert_self : (k : Text) (v : V) (m : Map V) → find k (insert k v m) ≡ some v
  find-insert_self k v m = ground (arith, find-insert k k v m, compare_text_refl k)

  -- `m.erase(k)`.
  unfoldable pub erase : Text → Map V → Map V
  erase k [] = []
  erase k ((j, w) ∷ m) = let rest = erase k m in if eq_text k j then rest else (j, w) ∷ rest

  pub find-erase :
      (j k : Text) (m : Map V) → find j (erase k m) ≡ (if eq_text j k then none else find j m)
  unfolding find erase
  find-erase j k [] = ground arith
  find-erase j k ((i, w) ∷ m) = ground (
    arith,
    find-erase j k m,
    compare_text_eq j k,
    compare_text_eq k i,
    compare_text_eq j i,
    compare_text_refl i,
    compare_text_refl j,
    compare_text_refl k,
  )
