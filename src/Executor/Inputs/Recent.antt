-- ===== src/Executor/Inputs/Recent.antt =====
-- InferenceInputsDatabase as a record of the last inferences.
use nimble_sdk.Prelude.{
  ℕ, zero, suc, ◌+◌, ◌-◌, ◌%◌, ◌<◌, ◌≤◌, ◌≡◌, ◌≢◌, refl, sym, ap, ap₂, Bool, ◌∙◌, inl, inr, false,
  Option, none, some, List, [], ◌∷◌, Text, eq_text, eq_text_iff, get_elem?, get_or,
  get_elem?-set_self, get_elem?-set_ne, get_elem?-some, length-set, length-replicate, length, set,
  replicate, ltb, ◌==◌, if◌then◌else◌, ◌>>=◌, arith, Bool-cases, ==_iff,
}
use native.Mathlib.Nat.{mod_self, mod-eq_of_lt}
use nimble_sdk.Executor.Structs.{ElementTypes, PreProcessorInput}
use nimble_sdk.Executor.Inputs.{
  InferenceInputsDatabase, new_database, add_input_for_infer_id, find_inputs,
  get_inputs_for_infer_id, Output, populate_preprocessors_input_in_return_object,
}

next_index : (i max : ℕ) → i < max → (i + 1) % max ≡ (if i + 1 == max then 0 else i + 1)
next_index i max h = elim (Bool-cases (i + 1 == max)) [
  | inl e ↦
      let same : i + 1 ≡ max = (==_iff (i + 1) max).0 e in
      rw e (ap (λ n. n % max) same ∙ mod_self max)
  | inr e ↦ let below : i + 1 < max = ground arith in rw e (mod-eq_of_lt below)
]

-- The inferences that were saved, the newest first.
abbrev pub History : Type 0
History = List (Text × List PreProcessorInput)

-- The database after a history.
abbrev pub database_of : ℕ → History → InferenceInputsDatabase
database_of max [] = new_database max
database_of max ((id, inputs) ∷ h) = add_input_for_infer_id (database_of max h) id inputs

-- The slot of the inference of age a (0 is the newest) and, the other way round, the age of a slot.
abbrev mirror : ℕ → ℕ → ℕ → ℕ
mirror over max a = if ltb a over then over - 1 - a else over + max - 1 - a

-- What the database holds for the age a: an empty entry before the first inference.
abbrev entry : History → ℕ → Text × List PreProcessorInput
entry h a = get_or h a ([], [])

record Holds (max : ℕ) (db : InferenceInputsDatabase) (h : History) : Type 0 where
  the_max : db.max_inferences_saved ≡ max
  ids_length : length db.infer_ids ≡ max
  inputs_length : length db.preprocessor_inputs_for_infer_ids ≡ max
  index_below : db.over_write_inference_index < max
  ids_at :
      (a : ℕ)
      → a < max
      → get_elem? db.infer_ids (mirror db.over_write_inference_index max a) ≡ some (entry h a).0
  inputs_at :
      (a : ℕ)
      → a < max
      → get_elem? db.preprocessor_inputs_for_infer_ids (mirror db.over_write_inference_index max a)
        ≡ some (entry h a).1

get_elem?-replicate : {A : Type 0} (n i : ℕ) (x : A) → i < n → get_elem? (replicate n x) i ≡ some x
get_elem?-replicate zero i x l = elim l [ ]
get_elem?-replicate (suc n) zero x l = refl
get_elem?-replicate (suc n) (suc i) x l = get_elem?-replicate n i x (omega arith)

mirror-lt : (over max a : ℕ) → over < max → a < max → mirror over max a < max
mirror-lt over max a o l = ground arith

mirror-mirror : (over max i : ℕ) → over < max → i < max → mirror over max (mirror over max i) ≡ i
mirror-mirror over max i o l = ground arith

new_database-Holds : (max : ℕ) → 0 < max → Holds max (new_database max) []
unfolding new_database
new_database-Holds max l = record {
  the_max = refl;
  ids_length = length-replicate max [];
  inputs_length = length-replicate max [];
  index_below = l;
  ids_at = λ a b. get_elem?-replicate max (mirror 0 max a) [] (mirror-lt 0 max a l b);
  inputs_at = λ a b. get_elem?-replicate max (mirror 0 max a) [] (mirror-lt 0 max a l b);
}

-- A ring of slots after one more write at `over`.
ring-set :
    {A : Type 0} (f : Text × List PreProcessorInput → A) (xs : List A) (over max : ℕ)
    (newest : Text × List PreProcessorInput) (h : History)
    → length xs ≡ max
    → over < max
    → ((a : ℕ) → a < max → get_elem? xs (mirror over max a) ≡ some (f (entry h a)))
    → (a : ℕ) → a < max
    → get_elem? (set xs over (f newest)) (mirror (if over + 1 == max then 0 else over + 1) max a)
      ≡ some (f (entry (newest ∷ h) a))
ring-set f xs over max newest h n o held zero l =
    let same : mirror (if over + 1 == max then 0 else over + 1) max 0 ≡ over = ground arith in
    rw same (get_elem?-set_self xs over (f newest) (rw n o))
ring-set f xs over max newest h n o held (suc a) l =
    let same : mirror (if over + 1 == max then 0 else over + 1) max (suc a) ≡ mirror over max a =
      ground arith in
    let ne : over ≢ mirror over max a = ground arith in
    rw (same, get_elem?-set_ne xs over (mirror over max a) (f newest) ne) (held a (omega arith))

add_input-Holds :
    (max : ℕ) (db : InferenceInputsDatabase) (h : History) (id : Text)
    (inputs : List PreProcessorInput)
    → Holds max db h
    → Holds max (add_input_for_infer_id db id inputs) ((id, inputs) ∷ h)
unfolding add_input_for_infer_id
add_input-Holds max db h id inputs p =
    let over = db.over_write_inference_index in
    let below = p.index_below in
    let some_slot : (db.max_inferences_saved == 0) ≡ false = rw p.the_max (ground (arith, below)) in
    let next : (over + 1) % db.max_inferences_saved ≡ (if over + 1 == max then 0 else over + 1) =
      rw p.the_max (next_index over max below) in
    rw (some_slot, next)
      (record {
        the_max = p.the_max;
        ids_length = length-set db.infer_ids over id ∙ p.ids_length;
        inputs_length =
            length-set db.preprocessor_inputs_for_infer_ids over inputs ∙ p.inputs_length;
        index_below = ground (arith, below);
        ids_at =
            ring-set (λ e. e.0) db.infer_ids over max (id, inputs) h p.ids_length below p.ids_at;
        inputs_at =
            ring-set (λ e. e.1) db.preprocessor_inputs_for_infer_ids over max (id, inputs) h
              p.inputs_length below p.inputs_at;
      })

database_of-Holds : (max : ℕ) (h : History) → 0 < max → Holds max (database_of max h) h
database_of-Holds max [] l = new_database-Holds max l
database_of-Holds max ((id, inputs) ∷ h) l =
    add_input-Holds max (database_of max h) h id inputs (database_of-Holds max h l)

-- The result of the search over the slots from i on.
abbrev Found : InferenceInputsDatabase → Text → ℕ → ℕ → Option (List PreProcessorInput) → Type 0
Found db id max i none =
    (slot : ℕ) → i ≤ slot → slot < max → get_elem? db.infer_ids slot ≡ some id → ⊥
Found db id max i (some inputs) =
    (slot : ℕ) × (slot < max)
    × (get_elem? db.infer_ids slot ≡ some id)
    × (get_elem? db.preprocessor_inputs_for_infer_ids slot ≡ some inputs)

Found-earlier :
    (db : InferenceInputsDatabase) (id : Text) (max i : ℕ) (saved : Text)
    (r : Option (List PreProcessorInput))
    → get_elem? db.infer_ids i ≡ some saved
    → eq_text saved id ≡ false
    → Found db id max (i + 1) r
    → Found db id max i r
Found-earlier db id max i saved (some inputs) at s f = f
Found-earlier db id max i saved none at s f = λ slot l m g. elim (Bool-cases (slot == i)) [
  | inl e ↦
      let same : slot ≡ i = (==_iff slot i).0 e in
      let there : get_elem? db.infer_ids i ≡ some id = ap (get_elem? db.infer_ids) (sym same) ∙ g in
      let equal : saved ≡ id = ground (arith, at, there) in
      let yes = (eq_text_iff saved id).1 equal in cc
  | inr e ↦ f slot (ground arith) m g
]

find_inputs-Found :
    (db : InferenceInputsDatabase) (id : Text) (max n i : ℕ)
    → length db.infer_ids ≡ max
    → length db.preprocessor_inputs_for_infer_ids ≡ max
    → n + i ≡ max
    → (r : Option (List PreProcessorInput)) × (find_inputs db id n i ≡ some r) × Found db id max i r
unfolding find_inputs
find_inputs-Found db id max zero i a b e = (none, refl, λ slot l m g. omega arith)
find_inputs-Found db id max (suc n) i a b e =
    let (saved, at) = get_elem?-some db.infer_ids i (omega (arith, a, e)) in
    let (inputs, at') =
      get_elem?-some db.preprocessor_inputs_for_infer_ids i (omega (arith, b, e)) in
    let (r, q, f) = find_inputs-Found db id max n (i + 1) a b (omega (arith, e)) in
    elim (Bool-cases (eq_text saved id)) [
      | inl s ↦ (
        some inputs,
        rw (at, s, at') refl,
        (i, omega (arith, e), at ∙ ap some ((eq_text_iff saved id).0 s), at'),
      )
      | inr s ↦ (r, rw (at, s) q, Found-earlier db id max i saved r at s f)
    ]

-- What a search tells of a history: the inputs it returns were saved with that id by one of the
-- last max inferences, and without a result none of these has that id.
abbrev pub Recall : ℕ → History → Text → Option (List PreProcessorInput) → Type 0
Recall max h id none =
    (age : ℕ) (inputs : List PreProcessorInput)
    → age < max
    → get_elem? h age ≡ some (id, inputs)
    → ⊥
Recall max h id (some inputs) = (age : ℕ) × (age < max) × (get_elem? h age ≡ some (id, inputs))

entry-some :
    (h : History) (a : ℕ) {e : Text × List PreProcessorInput}
    → get_elem? h a ≡ some e
    → entry h a ≡ e
entry-some [] a g = cc
entry-some (x ∷ h) zero g = ground (arith, g)
entry-some (x ∷ h) (suc a) g = entry-some h a g

some-entry : (h : History) (a : ℕ) → (entry h a).0 ≢ [] → get_elem? h a ≡ some (entry h a)
some-entry [] a n = absurd (n refl)
some-entry (x ∷ h) zero n = refl
some-entry (x ∷ h) (suc a) n = some-entry h a n

Found-Recall :
    (max : ℕ) (db : InferenceInputsDatabase) (h : History) (id : Text)
    (r : Option (List PreProcessorInput))
    → Holds max db h
    → id ≢ []
    → Found db id max 0 r
    → Recall max h id r
Found-Recall max db h id none p n f = λ age inputs l g.
    f (mirror db.over_write_inference_index max age) (omega arith)
      (mirror-lt db.over_write_inference_index max age p.index_below l)
      (p.ids_at age l ∙ ap (λ e. some e.0) (entry-some h age g))
Found-Recall max db h id (some inputs) p n (slot, l, g, g') =
    let over = db.over_write_inference_index in
    let age = mirror over max slot in
    let back = mirror-mirror over max slot p.index_below l in
    let below = mirror-lt over max slot p.index_below l in
    let the_id : some id ≡ some (entry h age).0 =
      sym g ∙ ap (get_elem? db.infer_ids) (sym back) ∙ p.ids_at age below in
    let the_inputs : some inputs ≡ some (entry h age).1 =
      sym g'
      ∙ ap (get_elem? db.preprocessor_inputs_for_infer_ids) (sym back)
      ∙ p.inputs_at age below in
    let e : id ≡ (entry h age).0 = ground (arith, the_id) in
    let e' : inputs ≡ (entry h age).1 = ground (arith, the_inputs) in
    (age, below, some-entry h age (λ z. n (e ∙ z)) ∙ ap some (ap₂ (λ a b. (a, b)) (sym e) (sym e')))

find_inputs-Recall :
    (max : ℕ) (h : History) (id : Text)
    → 0 < max
    → id ≢ []
    → (r : Option (List PreProcessorInput)) × (find_inputs (database_of max h) id max 0 ≡ some r)
      × Recall max h id r
find_inputs-Recall max h id l n =
    let p = database_of-Holds max h l in
    let (r, q, f) =
      find_inputs-Found (database_of max h) id max max 0 p.ids_length p.inputs_length
        (omega arith) in
    (r, q, Found-Recall max (database_of max h) h id r p n f)

-- What get_inputs_for_infer_id gives for the inputs that it found.
abbrev pub answer :
    ElementTypes → Option (List PreProcessorInput) → Option (Option (List (Option Output)) × Bool)
answer e none = some (none, false)
answer e (some inputs) = do
  (outputs, ok) ← populate_preprocessors_input_in_return_object e inputs
  some (some outputs, ok)

answered :
    (e : ElementTypes) (db : InferenceInputsDatabase) (id : Text) (max : ℕ)
    (r : Option (List PreProcessorInput))
    → db.max_inferences_saved ≡ max
    → find_inputs db id max 0 ≡ some r
    → get_inputs_for_infer_id e db id ≡ answer e r
unfolding get_inputs_for_infer_id
answered e db id max none m q = let q' = ap (λ n. find_inputs db id n 0) m ∙ q in rw q' refl
answered e db id max (some inputs) m q =
    let q' = ap (λ n. find_inputs db id n 0) m ∙ q in rw q' refl

-- After any history of inferences, get_inputs_for_infer_id for an id that is not empty never reads
-- past its slots and tells of the last max inferences: it answers with inputs that one of them saved
-- under the id, or says that there are none, and then none of them has the id.
pub get_inputs_for_infer_id-Recall :
    (e : ElementTypes) (max : ℕ) (h : History) (id : Text)
    → 0 < max
    → id ≢ []
    → (r : Option (List PreProcessorInput)) × (get_inputs_for_infer_id e (database_of max h) id
        ≡ answer e r)
      × Recall max h id r
get_inputs_for_infer_id-Recall e max h id l n =
    let the_max = (database_of-Holds max h l).the_max in
    let (r, q, f) = find_inputs-Recall max h id l n in
    (r, answered e (database_of max h) id max r the_max q, f)
