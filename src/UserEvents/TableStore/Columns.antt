-- ===== src/UserEvents/TableStore/Columns.antt =====
-- The columns of TableStore: a row is stored at the places that the schema numbers.
use nimble_sdk.Prelude.{
  ℕ, zero, suc, ◌+◌, ◌≡◌, refl, sym, ap, Bool, true, false, some, List, [], ◌∷◌, compare_text, not,
  if◌then◌else◌, inl, inr, ◌∙◌, Text, Ordering, eq_text, eq_text_refl, eq_text_iff, get_elem?, map,
  length, arith, Bool-cases, Option-cases,
}
use nimble_sdk.Prelude.Map.{Map, find, insert, contains, keys, find-insert}
use nimble_sdk.Prelude.Keys.{
  Increasing, Increasing-tail, Increasing-head, Increasing-unique, Mem, get_elem?-Mem,
  not_below_itself,
}
use nimble_sdk.UserEvents.Structs.{TableInfo, TableRow}
use nimble_sdk.UserEvents.Scalar.{Scalar}
use nimble_sdk.UserEvents.TableStore.{
  Element, number_columns, all_contained, row_values, check_columns_of_row, new_table_store,
}

-- Every name is numbered by a place of it among all names.
abbrev Places : List Text → Map ℕ → Type 0
Places all ids = (name : Text) (i : ℕ) → find name ids ≡ some i → get_elem? all i ≡ some name

empty-Places : (all : List Text) → Places all []
unfolding find
empty-Places all name i e = cc

Places-insert :
    (all : List Text) (ids : Map ℕ) (k : Text) (id : ℕ)
    → Places all ids
    → get_elem? all id ≡ some k
    → Places all (insert k id ids)
Places-insert all ids k id h g name i e = elim (Bool-cases (eq_text name k)) [
  | inl b ↦ let same = (eq_text_iff name k).0 b in let found = find-insert name k id ids in cc
  | inr b ↦ let found = find-insert name k id ids in h name i cc
]

-- The names from `id` on are those after the first `id` of all.
abbrev Suffix : List Text → ℕ → List Text → Type 0
Suffix all id [] = Unit
Suffix all id (name ∷ names) = (get_elem? all id ≡ some name) × Suffix all (id + 1) names

number_columns-Places :
    (all names : List Text) (id : ℕ) (ids : Map ℕ)
    → Suffix all id names
    → Places all ids
    → Places all (number_columns id names ids)
unfolding number_columns
number_columns-Places all [] id ids s h = h
number_columns-Places all (name ∷ names) id ids (g, s) h =
    number_columns-Places all names (id + 1) (insert name id ids) s
      (Places-insert all ids name id h g)

number_columns_keeps :
    (name : Text) (names : List Text) (id : ℕ) (ids : Map ℕ)
    → contains name ids ≡ true
    → contains name (number_columns id names ids) ≡ true
unfolding number_columns
number_columns_keeps name [] id ids h = h
number_columns_keeps name (k ∷ names) id ids h =
    number_columns_keeps name names (id + 1) (insert k id ids) (
      rw (find-insert name k id ids)
        (elim (Bool-cases (eq_text name k)) [ inl b ↦ rw b refl | inr b ↦ rw b h ]))

number_columns-contains :
    (name : Text) (names : List Text) (id : ℕ) (ids : Map ℕ)
    → Mem name names
    → contains name (number_columns id names ids) ≡ true
unfolding number_columns
number_columns-contains name [] id ids m = elim m [ ]
number_columns-contains name (k ∷ names) id ids (inl e) =
    number_columns_keeps name names (id + 1) (insert k id ids)
      (rw (find-insert name k id ids, e, eq_text_refl k) refl)
number_columns-contains name (k ∷ names) id ids (inr m) =
    number_columns-contains name names (id + 1) (insert k id ids) m

all_contained-Mem :
    {V W : Type 0} (m : Map V) (n : Map W) (k : Text)
    → all_contained m n ≡ true
    → Mem k (keys m)
    → contains k n ≡ true
unfolding all_contained
all_contained-Mem [] n k h g = elim g [ ]
all_contained-Mem ((j, v) ∷ m) n k h g = elim (Bool-cases (contains j n)) [
  | inl b ↦
      let r : all_contained ((j, v) ∷ m) n ≡ all_contained m n = rw b refl in
      elim g [ inl e ↦ rw e b | inr g' ↦ all_contained-Mem m n k (sym r ∙ h) g' ]
  | inr b ↦ let r : all_contained ((j, v) ∷ m) n ≡ false = rw b refl in cc
]

contains-Mem : {V : Type 0} (m : Map V) (k : Text) → contains k m ≡ true → Mem k (keys m)
unfolding find
contains-Mem [] k h = cc
contains-Mem ((j, v) ∷ m) k h = elim (Bool-cases (eq_text k j)) [
  | inl b ↦ inl ((eq_text_iff k j).0 b)
  | inr b ↦
      inr
        (contains-Mem m k (let r : contains k ((j, v) ∷ m) ≡ contains k m = rw b refl in sym r ∙ h))
]

Mem-contains : {V : Type 0} (m : Map V) (k : Text) → Mem k (keys m) → contains k m ≡ true
unfolding find
Mem-contains [] k h = elim h [ ]
Mem-contains ((j, v) ∷ m) k (inl e) = rw (e, eq_text_refl j) refl
Mem-contains ((j, v) ∷ m) k (inr h) = elim (Bool-cases (eq_text k j)) [
  | inl b ↦ rw b refl
  | inr b ↦ rw b (Mem-contains m k h)
]

-- The values of the row, if every key of it is a column.
row_values-all :
    (ids : Map ℕ) (row : Map Text)
    → all_contained row ids ≡ true
    → row_values ids row ≡ some (map (λ e. e.1) row)
unfolding row_values all_contained
row_values-all ids [] h = refl
row_values-all ids ((k, v) ∷ row) h = elim (Bool-cases (contains k ids)) [
  | inl b ↦
      let r : all_contained ((k, v) ∷ row) ids ≡ all_contained row ids = rw b refl in
      rw (row_values-all ids row (sym r ∙ h), b) refl
  | inr b ↦ let r : all_contained ((k, v) ∷ row) ids ≡ false = rw b refl in cc
]

above : (name k : Text) → compare_text k name ≡ Ordering.lt → eq_text name k ≡ false
above name k l = elim (Bool-cases (eq_text name k)) [
  | inl b ↦
      let e = (eq_text_iff name k).0 b in
      absurd (not_below_itself k (ap (compare_text k) (sym e) ∙ l))
  | inr b ↦ b
]

-- A std::map lists its values in the order of its keys.
values_at :
    (row : Map Text) (i : ℕ) (name : Text)
    → Increasing (keys row)
    → get_elem? (keys row) i ≡ some name
    → get_elem? (map (λ e. e.1) row) i ≡ find name row
unfolding find
values_at [] i name p g = cc
values_at ((k, v) ∷ row) zero name p g =
    let e : k ≡ name = ground arith in rw (sym e, eq_text_refl k) refl
values_at ((k, v) ∷ row) (suc i) name p g =
    let l = Increasing-head p name (get_elem?-Mem (keys row) i g) in
    let other = above name k l in rw other (values_at row i name (Increasing-tail p) g)

Suffix-shift :
    (x : Text) (all : List Text) (id : ℕ) (names : List Text)
    → Suffix all id names
    → Suffix (x ∷ all) (id + 1) names
Suffix-shift x all id [] s = tt
Suffix-shift x all id (name ∷ names) (g, s) =
    (let e : id + 1 ≡ suc id = omega arith in rw e g, Suffix-shift x all (id + 1) names s)

all_Suffix : (names : List Text) → Suffix names 0 names
all_Suffix [] = tt
all_Suffix (name ∷ names) = (refl, Suffix-shift name names 0 names (all_Suffix names))

contains_place :
    (names : List Text) (ids : Map ℕ)
    → Places names ids
    → (n : Text) → contains n ids ≡ true
    → Mem n names
contains_place names ids places n h = elim (Option-cases (find n ids)) [
  | inl e ↦ let r : contains n ids ≡ false = rw e refl in cc
  | inr (i, e) ↦ get_elem?-Mem names i (places n i e)
]

same_columns :
    (schema : Map Text) (row : Map Text)
    → Increasing (keys schema)
    → Increasing (keys row)
    → all_contained row (number_columns 0 (keys schema) []) ≡ true
    → all_contained (number_columns 0 (keys schema) []) row ≡ true
    → keys row ≡ keys schema
same_columns schema row p q f g =
    let names = keys schema in
    let ids = number_columns 0 names [] in
    let places = number_columns-Places names names 0 [] (all_Suffix names) (empty-Places names) in
    Increasing-unique (keys row) names q p
      (λ n m. contains_place names ids places n (all_contained-Mem row ids n f m))
      (λ n m. contains-Mem row n (
        all_contained-Mem ids row n g
          (contains-Mem ids n (number_columns-contains n names 0 [] m))))

both : (a b : Bool) → (if not a then false else b) ≡ true → (a ≡ true) × (b ≡ true)
both true b h = (refl, h)
both false b h = cc

length_values : (row : Map Text) → length (map (λ e. e.1) row) ≡ length (keys row)
length_values [] = refl
length_values (e ∷ row) = ap suc (length_values row)

both_contained :
    {V W : Type 0} (m : Map V) (n : Map W)
    → (if not (all_contained n m) then false else all_contained m n) ≡ true
    → (all_contained n m ≡ true) × (all_contained m n ≡ true)
both_contained m n h = both (all_contained n m) (all_contained m n) h

module _ (numbers : Element → Scalar) where
  -- In a new store, a row that check_columns_of_row lets through is stored whole: it has a value for
  -- each column of the schema, and at the place of a column stands the row's value for it.
  pub row_values-places :
      (info : TableInfo) (r : TableRow) (name : Text) (i : ℕ)
      → Increasing (keys info.schema)
      → Increasing (keys r.row)
      → check_columns_of_row numbers (new_table_store numbers info) r ≡ true
      → find name (new_table_store numbers info).column_to_id ≡ some i
      → (values : List Text) × (row_values (new_table_store numbers info).column_to_id r.row
          ≡ some values)
        × (length values ≡ length (keys info.schema))
        × (get_elem? values i ≡ find name r.row)
  unfolding new_table_store check_columns_of_row
  row_values-places info r name i p q h e =
      let names = keys info.schema in
      let ids = number_columns 0 names [] in
      let (f, g) = both_contained ids r.row h in
      let same = same_columns info.schema r.row p q f g in
      let places = number_columns-Places names names 0 [] (all_Suffix names) (empty-Places names) in
      (
        map (λ e. e.1) r.row,
        row_values-all ids r.row f,
        length_values r.row ∙ ap length same,
        values_at r.row i name q (rw same (places name i e)),
      )
