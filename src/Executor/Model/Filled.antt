-- ===== src/Executor/Model/Filled.antt =====
-- Which tensors the preprocessor inputs give memory.
use nimble_sdk.Prelude.{
  ℕ, zero, suc, ◌*◌, ◌<◌, ◌≡◌, refl, sym, ap, subst, ◌∙◌, inl, inr, Bool-cases, Option, none, some,
  List, [], ◌∷◌, ◌++◌, ◌==◌, ==_iff, get_elem?, get_elem?-lt, length, Option-cases, Text, arith,
  All,
}
use nimble_sdk.Prelude.Keys.{Mem}
use nimble_sdk.Prelude.Map.{find}
use nimble_sdk.Prelude.Int.{pos}
use nimble_sdk.Status.{terminal_error}
use nimble_sdk.Executor.Structs.{
  ElementTypes, TensorInfo, PreProcessorInputInfo, InputBytes, get_field_size_from_data_type,
  preprocessor_input_type,
}
use nimble_sdk.Executor.Model.{
  Row, UserInput, OnnxModel, Progress, Loop, fill_input, fill_names, fill_preprocessor_inputs,
  client_input, check_input,
}
use nimble_sdk.Executor.Model.Ends.{
  HasMemory, Ends, Ends-map, Ends-return, Keeps, Keeps-trans, place-Ends,
}
use nimble_sdk.Executor.Model.Fresh.{WellTyped, client_input-All}

-- The map from names to places, which the constructor fills.
abbrev pub WellNumbered : OnnxModel → Type 0
WellNumbered m =
    (name : Text) (i : ℕ)
    → find name m.input_names_to_id_map ≡ some i
    → (t : TensorInfo) × (get_elem? m.info.inputs i ≡ some t)

module _ (e : ElementTypes) {U : Type 0}
    (model_input : U → Text → List Row → Option (U × Option InputBytes)) (Good : U → Type 0) where
  -- The manager of the user events has no fault in a good state, and leaves a good one.
  abbrev pub Answers : Type 0
  Answers =
      (u : U) (id : Text) (input : List Row)
      → Good u
      → (r : U × Option InputBytes) × (model_input u id input ≡ some r) × Good r.0

  -- Every input of those names has memory.
  abbrev pub Filled : OnnxModel → List Text → Progress e model_input → Type 0
  Filled m names p =
      (name : Text) (i : ℕ)
      → Mem name names
      → find name m.input_names_to_id_map ≡ some i
      → HasMemory p.tensors i

  fill_input-Ends :
      {Q : Progress e model_input → Type 0} (id : Text) (input : List Row) (t : TensorInfo) (i : ℕ)
      (p : Progress e model_input) (next : Progress e model_input → Loop e model_input)
      → Answers
      → Good p.events
      → i < length p.tensors
      → ((p' : Progress e model_input)
          → Keeps e model_input Good p p'
          → HasMemory p'.tensors i
          → Ends e model_input Good Q (next p'))
      → Ends e model_input Good Q (fill_input e model_input id input t i p next)
  unfolding fill_input
  fill_input-Ends id input t i p next answers good l f = elim (Bool-cases t.to_preprocess) [
    | inr s ↦ rw (fill_input, s) (Ends-return e model_input Good terminal_error p)
    | inl s ↦
        let ((u, filled), a, good') = answers p.events (id ++ t.name) input good in
        let p' = record p { events = u } in
        elim (Option-cases filled) [
          | inl n ↦ rw (fill_input, s, a, n) (Ends-return e model_input Good terminal_error p')
          | inr (v, n) ↦
              let p'' = record p' {
                saved =
                    p.saved ++ record { model_input = v; owner = id; tensor_info = some t } ∷ [];
              } in
              let size = v.length * get_field_size_from_data_type e t.data_type in
              elim (Bool-cases (check_input e t (pos t.data_type) size)) [
                | inl c ↦
                    rw (fill_input, s, a, n, c)
                      (place-Ends e model_input Good t i v.bytes p'' next l
                        (λ p3 k. f p3 (k.0, k.1, λ g. k.2 good')))
                | inr c ↦
                    rw (fill_input, s, a, n, c) (Ends-return e model_input Good terminal_error p'')
              ]
        ]
  ]

  Filled-cons :
      (m : OnnxModel) (name : Text) (names : List Text) (i : ℕ) (p : Progress e model_input)
      → find name m.input_names_to_id_map ≡ some i
      → HasMemory p.tensors i
      → Filled m names p
      → Filled m (name ∷ names) p
  Filled-cons m name names i p n here f other j (inr h) g = f other j h g
  Filled-cons m name names i p n here f other j (inl same) g =
      let there : find name m.input_names_to_id_map ≡ some j =
        ap (λ k. find k m.input_names_to_id_map) (sym same) ∙ g in
      let place : i ≡ j = ground (arith, n, there) in rw (sym place) here

  fill_names-Ends :
      (m : OnnxModel) (input : List Row) (names : List Text) (p : Progress e model_input)
      → Answers
      → Good p.events
      → WellNumbered m
      → length p.tensors ≡ length m.info.inputs
      → Ends e model_input Good
          (λ p'. Keeps e model_input Good p p' × Filled m names p')
          (fill_names e model_input m input names p)
  unfolding fill_names
  fill_names-Ends m input [] p answers good numbered l =
      (p, none, refl, λ n. ((refl, λ j h. h, λ g. g), λ name i h. elim h [ ]))
  fill_names-Ends m input (name ∷ names) p answers good numbered l =
      elim (Option-cases (find name m.input_names_to_id_map)) [
        | inl n ↦ rw (fill_names, n) (Ends-return e model_input Good terminal_error p)
        | inr (i, n) ↦
            let (t, at) = numbered name i n in
            rw (fill_names, n, at)
              (fill_input-Ends m.model_id input t i p (fill_names e model_input m input names)
                answers good (omega (arith, l, get_elem?-lt m.info.inputs i at))
                (λ p1 k here.
                  Ends-map e model_input Good (fill_names e model_input m input names p1)
                    (λ p' (k', f). (
                      Keeps-trans e model_input Good p p1 p' k k',
                      Filled-cons m name names i p' n (k'.1 i here) f,
                    ))
                    (fill_names-Ends m input names p1 answers (k.2 good) numbered (k.0 ∙ l))))
      ]

  -- The same of the names of every preprocessor input.
  abbrev pub AllFilled : OnnxModel → List PreProcessorInputInfo → Progress e model_input → Type 0
  AllFilled m infos p =
      (k : ℕ) (info : PreProcessorInputInfo)
      → get_elem? infos k ≡ some info
      → Filled m info.input_names p

  AllFilled-cons :
      (m : OnnxModel) (info : PreProcessorInputInfo) (infos : List PreProcessorInputInfo)
      (p : Progress e model_input)
      → Filled m info.input_names p
      → AllFilled m infos p
      → AllFilled m (info ∷ infos) p
  AllFilled-cons m info infos p here rest (suc k) other g = rest k other g
  AllFilled-cons m info infos p here rest zero other g =
      let same : info ≡ other = ground (arith, g) in subst (λ i. Filled m i.input_names p) same here

  pub fill_preprocessor_inputs-Ends :
      (m : OnnxModel) (req : List UserInput) (infos : List PreProcessorInputInfo)
      (p : Progress e model_input)
      → All (WellTyped e) req
      → Answers
      → Good p.events
      → WellNumbered m
      → length p.tensors ≡ length m.info.inputs
      → Ends e model_input Good
          (λ p'. Keeps e model_input Good p p' × AllFilled m infos p')
          (fill_preprocessor_inputs e model_input m req infos p)
  unfolding fill_preprocessor_inputs
  fill_preprocessor_inputs-Ends m req [] p w answers good numbered l =
      (p, none, refl, λ n. ((refl, λ j h. h, λ g. g), λ k info g. cc))
  fill_preprocessor_inputs-Ends m req (info ∷ infos) p w answers good numbered l =
      elim (Option-cases (client_input info.name req)) [
        | inl n ↦ rw (fill_preprocessor_inputs, n) (Ends-return e model_input Good terminal_error p)
        | inr (r, n) ↦ elim (Bool-cases (r.data_type == preprocessor_input_type)) [
          | inr d ↦
              rw (fill_preprocessor_inputs, n, d) (Ends-return e model_input Good terminal_error p)
          | inl d ↦
              let typed = client_input-All (WellTyped e) info.name req r w n in
              let (input, rows) = typed.1 ((==_iff r.data_type preprocessor_input_type).0 d) in
              let (p1, status, q, f) =
                fill_names-Ends m input info.input_names p answers good numbered l in
              elim (Option-cases status) [
                | inr (s, z) ↦
                    rw (fill_preprocessor_inputs, n, d, rows, q, z)
                      (Ends-return e model_input Good s p1)
                | inl z ↦
                    let (k, here) = f z in
                    rw (fill_preprocessor_inputs, n, d, rows, q, z)
                      (Ends-map e model_input Good
                        (fill_preprocessor_inputs e model_input m req infos p1)
                        (λ p' (k', rest). (
                          Keeps-trans e model_input Good p p1 p' k k',
                          AllFilled-cons m info infos p' (λ name i h g. k'.1 i (here name i h g))
                              rest,
                        ))
                        (fill_preprocessor_inputs-Ends m req infos p1 w answers (k.2 good) numbered
                          (k.0 ∙ l)))
              ]
        ]
      ]
