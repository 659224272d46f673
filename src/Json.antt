-- ===== src/Json.antt =====
-- nlohmann::json, which the SDK only calls, as an interface: its values, the parser and the
-- accessors, where `none` stands for an exception; and util/include/json.h over it.
use nimble_sdk.Prelude.{◌≡◌, Bool, Option, none, some, List, [], ◌∷◌, Text, ◌>>=◌}
use nimble_sdk.Prelude.Map.{find}
use nimble_sdk.Prelude.Int.{ℤ}

pub record Json : Type 1 where
  pub J : Type 0
  pub parse : Text → Option J
  pub dump : J → Text
  -- `j.at(key)`
  pub at : Text → J → Option J
  -- `j.get_to(x)`
  pub as_text : J → Option Text
  pub as_int : J → Option ℤ
  pub as_bool : J → Option Bool
  pub as_list : J → Option (List J)
  pub of_text : Text → J
  pub of_int : ℤ → J
  pub of_list : List J → J
  pub of_object : List (Text × J) → J

-- What the SDK relies on: an object that was dumped is parsed back, a key of an object gives its
-- (first) value, and texts and integers are read as they were put.
pub record ReadsBack (json : Json) : Type 0 where
  pub parse-dump :
      (fields : List (Text × json.J))
      → json.parse (json.dump (json.of_object fields)) ≡ some (json.of_object fields)
  pub at-of_object :
      (key : Text) (fields : List (Text × json.J))
      → json.at key (json.of_object fields) ≡ find key fields
  pub as_text-of_text : (t : Text) → json.as_text (json.of_text t) ≡ some t
  pub as_int-of_int : (n : ℤ) → json.as_int (json.of_int n) ≡ some n

module _ (json : Json) where
  open json use {J}

  -- JSONParser::get<T>, given T's from_json and T().
  abbrev pub get_json {ℓ} : {T : Type ℓ} → (J → Option T) → T → Text → T
  get_json from_json default s = elim (json.parse s) [
    | none ↦ default
    | some j ↦ elim (from_json j) [ none ↦ default | some t ↦ t ]
  ]

  abbrev pub text_at : Text → J → Option Text
  text_at key j = do v ← json.at key j; json.as_text v

  abbrev pub int_at : Text → J → Option ℤ
  int_at key j = do v ← json.at key j; json.as_int v

  -- `get_to` of a vector of strings.
  abbrev pub all_texts : List J → Option (List Text)
  all_texts [] = some []
  all_texts (v ∷ vs) = do t ← json.as_text v; ts ← all_texts vs; some (t ∷ ts)

  abbrev pub texts_at : Text → J → Option (List Text)
  texts_at key j = do v ← json.at key j; vs ← json.as_list v; all_texts vs

  -- `if (j.find(key) != j.end()) j.at(key).get_to(x)`, for an x that has the given value.
  abbrev pub optional {ℓ} : {T : Type ℓ} → (J → Option T) → Text → J → T → Option T
  optional get key j value = elim (json.at key j) [ none ↦ some value | some v ↦ get v ]
