-- ===== src/Examples/ToyJson.antt =====
-- A json library whose values are their own texts, and which reads back what it wrote.
use nimble_sdk.Prelude.{
  ℕ, zero, suc, ◌≤◌, ◌≡◌, ◌∙◌, ap, refl, Option, none, some, List, [], ◌∷◌, ◌++◌, Text, eq_text,
  length, length-append, ltb, if◌then◌else◌, arith,
}
use nimble_sdk.Prelude.Map.{find}
use nimble_sdk.Prelude.Int.{ℤ, pos, negsuc}
use nimble_sdk.Json.{Json, ReadsBack}

-- A text is a list of numbers, and so is everything that is written here: an object lists its keys
-- and values, each behind its length.
abbrev pub write_object : List (Text × Text) → Text
write_object [] = []
write_object ((key, value) ∷ fields) =
    length key ∷ (key ++ (length value ∷ (value ++ write_object fields)))

-- The first n numbers, and the rest.
abbrev split_at : ℕ → Text → Text × Text
split_at zero t = ([], t)
split_at (suc n) [] = ([], [])
split_at (suc n) (c ∷ t) = let (a, b) = split_at n t in (c ∷ a, b)

split_at-append : (s t : Text) → split_at (length s) (s ++ t) ≡ (s, t)
split_at-append [] t = refl
split_at-append (c ∷ s) t = rw (split_at-append s t) refl

abbrev choose : (Text → Option Text) → Text → Text → Text × Text → Option Text
choose rest key name (value, others) = if eq_text key name then some value else rest others

abbrev after_name : (Text → Option Text) → Text → Text × Text → Option Text
after_name rest key (name, []) = none
after_name rest key (name, v ∷ t) = choose rest key name (split_at v t)

-- A key's value in an object with at most n keys.
abbrev read_at : ℕ → Text → Text → Option Text
read_at zero key t = none
read_at (suc n) key [] = none
read_at (suc n) key (k ∷ t) = after_name (read_at n key) key (split_at k t)

read_at-write_object :
    (n : ℕ) (key : Text) (fields : List (Text × Text))
    → length fields ≤ n
    → read_at n key (write_object fields) ≡ find key fields
unfolding find
read_at-write_object zero key [] l = refl
read_at-write_object (suc n) key [] l = refl
read_at-write_object zero key (f ∷ fields) l = elim l [ ]
read_at-write_object (suc n) key ((k, v) ∷ fields) l =
    let more = write_object fields in
    ap (after_name (read_at n key) key) (split_at-append k (length v ∷ (v ++ more)))
    ∙ ap (choose (read_at n key) key k) (split_at-append v more)
    ∙ ap (λ r. if eq_text key k then some v else r)
        (read_at-write_object n key fields (omega arith))

abbrev write_int : ℤ → Text
write_int (pos n) = n ∷ []
write_int (negsuc n) = n ∷ 0 ∷ []

abbrev read_int : Text → Option ℤ
read_int [] = none
read_int (n ∷ []) = some (pos n)
read_int (n ∷ m ∷ t) = some (negsuc n)

read_int-write_int : (n : ℤ) → read_int (write_int n) ≡ some n
read_int-write_int (pos n) = refl
read_int-write_int (negsuc n) = refl

-- A list has each of its values behind its length.
abbrev pub write_list : List Text → Text
write_list [] = []
write_list (t ∷ ts) = length t ∷ (t ++ write_list ts)

-- The values of a list of at most n of them.
abbrev read_list : ℕ → Text → List Text
read_list zero t = []
read_list (suc n) [] = []
read_list (suc n) (k ∷ t) = let (v, rest) = split_at k t in v ∷ read_list n rest

abbrev pub toy_json : Json
toy_json = record {
  J = Text;
  parse = λ t. some t;
  dump = λ t. t;
  at = λ key t. read_at (length t) key t;
  as_text = λ t. some t;
  as_int = read_int;
  as_bool = λ t. some (ltb 0 (length t));
  as_list = λ t. some (read_list (length t) t);
  of_text = λ t. t;
  of_int = write_int;
  of_list = write_list;
  of_object = write_object;
}

length-write_object : (fields : List (Text × Text)) → length fields ≤ length (write_object fields)
length-write_object [] = omega arith
length-write_object ((k, v) ∷ fields) =
    let rest = length-write_object fields in
    let a = length-append k (length v ∷ (v ++ write_object fields)) in
    let b = length-append v (write_object fields) in omega (arith, rest, a, b)

pub toy_json-ReadsBack : ReadsBack toy_json
toy_json-ReadsBack = record {
  parse-dump = λ fields. refl;
  at-of_object = λ key fields.
      read_at-write_object (length (write_object fields)) key fields (length-write_object fields);
  as_text-of_text = λ t. refl;
  as_int-of_int = read_int-write_int;
}
