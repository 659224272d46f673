-- ===== src/UserEvents/Description/Complete.antt =====
-- A description that is read is complete: what is made from it never reads outside its lists.
use nimble_sdk.Prelude.{
  ℕ, zero, suc, ◌+◌, ◌*◌, ◌%◌, ◌<◌, ◌≡◌, ap, refl, false, not, ◌&&◌, Option, none, some, List, [],
  ◌∷◌, Text, codes, eq_text, get_elem?-some, length, length-append, map, arith, inl, inr,
  Option-cases, Bool-cases, IfSome, IfSome->>=, IfSome-bind, IfSome-if, IfSome-choice,
}
use native.Mathlib.Nat.{mod-lt}
use nimble_sdk.Prelude.Map.{find}
use nimble_sdk.Json.{Json, texts_at, optional}
use nimble_sdk.UserEvents.Structs.{PreProcessorInfo}
use nimble_sdk.UserEvents.Scalar.{Scalar}
use nimble_sdk.UserEvents.Window.{new_window}
use nimble_sdk.UserEvents.PreProcessor.{PreProcessor, fill_default, new_preprocessor}
use nimble_sdk.UserEvents.TableStore.{Element, TableStore, column_ids_of, has_substring, tolower}
use nimble_sdk.UserEvents.Description.{no_info, all_seconds, read_operations, read_info, described}

-- An operator and a default for each column.
abbrev pub IsComplete : {T : Type 0} → PreProcessorInfo T → Type 0
IsComplete info =
    (length info.aggregate_operators ≡ length info.columns_to_aggregate)
    × (length info.default_vector ≡ length info.columns_to_aggregate)

fill_default-length :
    {T : Type 0} (defaults : List T) (columns n i : ℕ)
    → 0 < columns
    → length defaults ≡ columns
    → (vs : List T) × (fill_default defaults columns n i ≡ some vs) × (length vs ≡ n)
unfolding fill_default
fill_default-length defaults columns zero i p l = ([], refl, refl)
fill_default-length defaults columns (suc n) i p l =
    let inside : i % columns < length defaults = rw l (mod-lt i p) in
    let (v, e) = get_elem?-some defaults (i % columns) inside in
    let (vs, f, k) = fill_default-length defaults columns n (i + 1) p l in
    (v ∷ vs, simp (fill_default, e, f) refl, ap suc k)

default_feature-length :
    {T : Type 0} (defaults : List T) (windows columns : ℕ)
    → length defaults ≡ columns
    → (vs : List T) × (fill_default defaults columns (windows * columns) 0 ≡ some vs)
      × (length vs ≡ windows * columns)
unfolding fill_default
default_feature-length defaults windows zero l =
    let none_there : windows * 0 ≡ 0 = omega arith in rw none_there ([], refl, refl)
default_feature-length defaults windows (suc c) l =
    fill_default-length defaults (suc c) (windows * suc c) 0 (omega arith) l

new_preprocessor-made :
    {T : Type 0} (id : ℕ) (info : PreProcessorInfo T) (group_ids column_ids : List ℕ)
    → length info.default_vector ≡ length info.columns_to_aggregate
    → (p : PreProcessor T) × (new_preprocessor id info group_ids column_ids ≡ some p)
      × (length p.default_feature
          ≡ length info.rolling_windows_in_secs * length info.columns_to_aggregate)
unfolding new_preprocessor
new_preprocessor-made {T} id info group_ids column_ids h =
    let (vs, e, l) =
      default_feature-length info.default_vector (length info.rolling_windows_in_secs)
        (length info.columns_to_aggregate) h in
    let p : PreProcessor T = record {
      id = id;
      group_ids = group_ids;
      column_ids = column_ids;
      is_useless = false;
      info = info;
      default_feature = vs;
      rolling_windows = map (new_window id info) info.rolling_windows_in_secs;
      features = [];
    } in
    (p, simp (new_preprocessor, e) refl, l)

module _ (json : Json) (seconds : json.J → Option ℕ) {T : Type 0}
    (element : json.J → Option T) where
  open json use {J, at, as_text, as_list}

  read_operations-IsComplete :
      (operations : List J) (info : PreProcessorInfo T)
      → IsComplete info
      → IfSome (λ r. IsComplete r.0) (read_operations json seconds element operations info)
  unfolding read_operations
  read_operations-IsComplete [] info h = h
  read_operations-IsComplete (operation ∷ operations) info (h, k) =
      IfSome-choice _ (at (codes "columnName") operation) _ _ (h, k)
        (λ column.
          IfSome-choice _ (at (codes "operator") operation) _ _ (h, k)
            (λ operator.
              IfSome-choice _ (at (codes "default") operation) _ _ (h, k)
                (λ default. IfSome-bind _ (as_text column) _ (λ c.
                  IfSome-bind _ (as_text operator) _ (λ o. IfSome-bind _ (element default) _ (λ d.
                    let l = length-append info.columns_to_aggregate (c ∷ []) in
                    let m = length-append info.aggregate_operators (o ∷ []) in
                    let n = length-append info.default_vector (d ∷ []) in
                    read_operations-IsComplete operations _
                      (omega (arith, h, l, m), omega (arith, k, l, n))))))))

  read_info-IsComplete : (j : J) → IfSome IsComplete (read_info json seconds element j)
  unfolding read_info
  read_info-IsComplete j = IfSome-bind _ (at (codes "rollingWindowsInSecs") j) _ (λ windows_json.
      IfSome-bind _ (as_list windows_json) _ (λ windows_list.
        IfSome-bind _ (all_seconds json seconds element windows_list) _ (λ windows.
          IfSome-bind _ (at (codes "operations") j) _ (λ operations_json.
            IfSome-bind _ (as_list operations_json) _ (λ operations.
              IfSome->>= (λ r. IsComplete r.0) _ _ _
                (read_operations-IsComplete operations
                  (record no_info { rolling_windows_in_secs = windows }) (refl, refl))
                (λ (info, complete) h. IfSome-if _ (not complete) _ _ h (
                  IfSome-bind _ (optional json as_text (codes "tableName") j info.table_name) _
                    (λ table.
                      IfSome-bind _ (texts_at json (codes "groupBy") j) _ (λ groups. h)))))))))

  described-IsComplete : (j : J) → IsComplete (described json seconds element j)
  unfolding described
  described-IsComplete j = elim (Option-cases (read_info json seconds element j)) [
    | inl nothing ↦ rw nothing (refl, refl)
    | inr (info, e) ↦ rw e (let h = read_info-IsComplete j in rw e at h)
  ]

column_ids_of-safe :
    (numbers : Element → Scalar) (t : TableStore numbers) (operators names : List Text) (i : ℕ)
    → i + length names ≡ length operators
    → (ids : Option (List ℕ)) × (column_ids_of numbers t operators names i ≡ some ids)
unfolding column_ids_of
column_ids_of-safe numbers t operators [] i l = (some [], refl)
column_ids_of-safe numbers t operators (name ∷ names) i l =
    let (operator, o) = get_elem?-some operators i (omega (arith, l)) in
    let (rest, r) = column_ids_of-safe numbers t operators names (i + 1) (omega (arith, l)) in
    elim (Option-cases (find name t.column_to_id)) [
      | inl nothing ↦ (none, simp (column_ids_of, nothing) refl)
      | inr (id, e) ↦
          let declared : Text = elim (find name t.table_info.schema) [ none ↦ [] | some d ↦ d ] in
          elim (Bool-cases (
            not (eq_text operator (codes "Count"))
            && has_substring (codes "varchar") (tolower declared))) [
              | inl refused ↦ (none, simp (column_ids_of, e, o, refused) refl)
              | inr fine ↦ (
                elim rest [ none ↦ none | some ids' ↦ some (id ∷ ids') ],
                simp (column_ids_of, e, o, fine, r) refl,
              )
            ]
    ]

module _ (json : Json) (seconds : json.J → Option ℕ) (numbers : Element → Scalar) (t : Element)
    (element : json.J → Option (numbers t).T) where
  -- Whatever the json of a preprocessor says, the description that is read from it has an operator and
  -- a default for each column: the constructor of a preprocessor fills its default vector, one cell
  -- for each column in each rolling window, and the check of its columns ends, without reading
  -- outside a list.
  pub described_is_made :
      (j : json.J) (id : ℕ) (group_ids column_ids : List ℕ) (table : TableStore numbers)
      → ((p : PreProcessor (numbers t).T) × (new_preprocessor id
              (described json seconds element j)
              group_ids
              column_ids
            ≡ some p)
          × (length p.default_feature
              ≡ length (described json seconds element j).rolling_windows_in_secs
                * length (described json seconds element j).columns_to_aggregate))
        × ((ids : Option (List ℕ)) × (column_ids_of numbers table
                (described json seconds element j).aggregate_operators
                (described json seconds element j).columns_to_aggregate
                0
              ≡ some ids))
  described_is_made j id group_ids column_ids table =
      let info = described json seconds element j in
      let (operators, defaults) = described-IsComplete json seconds element j in
      (
        new_preprocessor-made id info group_ids column_ids defaults,
        column_ids_of-safe numbers table info.aggregate_operators info.columns_to_aggregate 0
            (omega (arith, operators)),
      )
