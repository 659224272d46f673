-- ===== src/Executor/Model/Construct.antt =====
-- What the constructor of ONNXModel leaves to get_inference.
use nimble_sdk.Prelude.{
  ℕ, suc, ◌+◌, ◌<◌, ◌≡◌, ◌∙◌, refl, sym, ap, subst, inl, inr, true, false, Bool, Bool-cases, Option,
  Option-cases, none, some, List, [], ◌∷◌, ◌++◌, Text, ◌⊎◌, All, eq_text, length, get_elem?-some,
  arith, IfSome,
}
use nimble_sdk.Prelude.Map.{Map, find, insert, find-insert}
use nimble_sdk.Executor.Structs.{ElementTypes, TensorInfo, ModelInfo}
use nimble_sdk.Executor.Model.{Tensor, OnnxModel, create_ort_tensor}
use nimble_sdk.Executor.Model.Filled.{WellNumbered}
use nimble_sdk.Executor.Model.Session.{
  number_names, new_model, create_preprocessors, dummy_tensors, allocate_output_memory,
}

abbrev Below : ℕ → Map ℕ → Type 0
Below n ids = (name : Text) (j : ℕ) → find name ids ≡ some j → j < n

empty-Below : (n : ℕ) → Below n []
unfolding find
empty-Below n name j e = cc

insert-Below : (n : ℕ) (k : Text) (ids : Map ℕ) → Below n ids → Below (n + 1) (insert k n ids)
insert-Below n k ids h name j e = elim (Bool-cases (eq_text name k)) [
  | inl b ↦
      let found : some n ≡ some j = sym (find-insert name k n ids ∙ rw b refl) ∙ e in
      ground (arith, found)
  | inr b ↦
      let found : find name ids ≡ some j = sym (find-insert name k n ids ∙ rw b refl) ∙ e in
      omega (arith, h name j found)
]

number_names-Below :
    (ts : List TensorInfo) (i : ℕ) (ids : Map ℕ)
    → Below i ids
    → Below (i + length ts) (number_names i ts ids)
unfolding number_names
number_names-Below [] i ids h name j e = omega (arith, h name j e)
number_names-Below (t ∷ ts) i ids h name j e = omega (
  arith,
  number_names-Below ts (i + 1) (insert t.name i ids) (insert-Below i t.name ids h) name j e,
)

pub number_names-WellNumbered :
    (m : OnnxModel) → m.input_names_to_id_map ≡ number_names 0 m.info.inputs [] → WellNumbered m
number_names-WellNumbered m e name i h = get_elem?-some m.info.inputs i (
    omega (
      arith,
      number_names-Below m.info.inputs 0 [] (empty-Below 0) name i (sym (ap (find name) e) ∙ h),
    ))

-- The place that the map has for a name: that of the last input with the name, and none if there
-- is no such input.
abbrev pub PlaceOf : Text → ℕ → List TensorInfo → Option ℕ → Option ℕ → Type 0
PlaceOf name i ts before place =
    (All (λ t. eq_text name t.name ≡ false) ts × (place ≡ before))
    ⊎ ((front : List TensorInfo) × (t : TensorInfo) × (back : List TensorInfo) × (ts
          ≡ front ++ t ∷ back)
        × (eq_text name t.name ≡ true)
        × All (λ u. eq_text name u.name ≡ false) back
        × (place ≡ some (i + length front)))

number_names-PlaceOf :
    (name : Text) (ts : List TensorInfo) (i : ℕ) (ids : Map ℕ)
    → PlaceOf name i ts (find name ids) (find name (number_names i ts ids))
unfolding number_names
number_names-PlaceOf name [] i ids = inl (tt, refl)
number_names-PlaceOf name (t ∷ ts) i ids =
    let put = find-insert name t.name i ids in
    elim (number_names-PlaceOf name ts (i + 1) (insert t.name i ids)) [
      | inr (front, u, back, e, same, others, place) ↦
          let there : i + 1 + length front ≡ i + suc (length front) = omega arith in
          inr (t ∷ front, u, back, ap (λ us. t ∷ us) e, same, others, place ∙ ap some there)
      | inl (others, kept) ↦ elim (Bool-cases (eq_text name t.name)) [
        | inl b ↦
            let here : i ≡ i + 0 = omega arith in
            let place : find name (insert t.name i ids) ≡ some i = put ∙ rw b refl in
            inr ([], t, ts, refl, b, others, kept ∙ place ∙ ap some here)
        | inr b ↦
            let place : find name (insert t.name i ids) ≡ find name ids = put ∙ rw b refl in
            inl ((b, others), kept ∙ place)
      ]
    ]

module _ (e : ElementTypes) where
  dummy_tensors-length :
      (ts : List TensorInfo) → IfSome (λ vs. length vs ≡ length ts) (dummy_tensors e ts)
  unfolding dummy_tensors
  dummy_tensors-length [] = refl
  dummy_tensors-length (t ∷ ts) = elim (Option-cases (create_ort_tensor e t [])) [
    | inl n ↦ rw (dummy_tensors, n) tt
    | inr (v, n) ↦
        let rest = dummy_tensors-length ts in
        elim (Option-cases (dummy_tensors e ts)) [
          | inl d ↦ rw (dummy_tensors, n, d) tt
          | inr (vs, d) ↦
              let same = subst (IfSome (λ vs. length vs ≡ length ts)) d rest in
              rw (dummy_tensors, n, d) (ap suc same)
        ]
  ]

  -- What get_inference needs of a model besides that its inputs are covered.
  abbrev pub IsReady : ModelInfo → OnnxModel → Type 0
  IsReady info m =
      (m.info ≡ info)
      × WellNumbered m
      × ((name : Text) → PlaceOf name 0 info.inputs none (find name m.input_names_to_id_map))
      × (length m.input_tensors ≡ length info.inputs)

  abbrev pub Ready : ModelInfo → Option OnnxModel → Type 0
  Ready info none = Unit
  Ready info (some m) = IsReady info m

  module _ {U : Type 0} (create_preprocessor : U → Text → TensorInfo → Option (U × Bool))
      (session : Bool) (info : ModelInfo) (version model_id : Text) (events : U) where
    abbrev built : Option (U × Option OnnxModel)
    built = new_model e create_preprocessor session info version model_id events

    abbrev preprocessors : Option (U × Bool)
    preprocessors = create_preprocessors e create_preprocessor model_id info.inputs events

    -- A part of the construction fails.
    abbrev pub Fails : Type 0
    Fails =
        (session ≡ false)
        ⊎ (preprocessors ≡ none)
        ⊎ ((events' : U) × (preprocessors ≡ some (events', false)))
        ⊎ (dummy_tensors e info.inputs ≡ none)
        ⊎ ((allocate_output_memory e info.outputs).1 ≡ false)

    abbrev pub Made : Type 0
    Made = (events' : U) × (m : OnnxModel) × (built ≡ some (events', some m))

    -- The constructor makes a model, unless the session, a preprocessor or a tensor cannot be made.
    -- A model that it makes has for each name the place of the last input with that name, in range,
    -- and none for other names, and has a tensor for each input.
    pub new_model-Ready : IfSome (λ r. Ready info r.1) built × (Made ⊎ Fails)
    unfolding new_model find
    new_model-Ready = elim (Bool-cases session) [
      | inr s ↦ rw s (tt, inr (inl refl))
      | inl s ↦
          let lengths = dummy_tensors-length info.inputs in
          let made : List (Option Tensor) → OnnxModel = λ tensors. record {
            info = info;
            model_id = model_id;
            version = version;
            input_tensors = tensors;
            input_names_to_id_map = number_names 0 info.inputs [];
          } in
          elim (Option-cases preprocessors) [
            | inl n ↦ rw (new_model, s, n) (tt, inr (inr (inl refl)))
            | inr ((events', false), n) ↦
                rw (new_model, s, n) (tt, inr (inr (inr (inl (events', refl)))))
            | inr ((events', true), n) ↦ elim (Option-cases (dummy_tensors e info.inputs)) [
              | inl d ↦ rw (new_model, s, n, d) (tt, inr (inr (inr (inr (inl refl)))))
              | inr (vs, d) ↦
                  let same = subst (IfSome (λ vs. length vs ≡ length info.inputs)) d lengths in
                  elim (Bool-cases (allocate_output_memory e info.outputs).1) [
                    | inr a ↦ rw (new_model, s, n, d, a) (tt, inr (inr (inr (inr (inr refl)))))
                    | inl a ↦
                        let ready : IsReady info (made vs) = (
                          refl,
                          number_names-WellNumbered (made vs) refl,
                          λ name. number_names-PlaceOf name info.inputs 0 [],
                          same,
                        ) in
                        rw (new_model, s, n, d, a) (ready, inl (events', made vs, refl))
                  ]
            ]
          ]
    ]
