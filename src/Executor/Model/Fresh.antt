-- ===== src/Executor/Model/Fresh.antt =====
-- Which tensors the loops of get_inference give memory.
use nimble_sdk.Prelude.{
  ℕ, zero, suc, ◌+◌, ◌*◌, ◌<◌, ◌≤◌, ◌≡◌, ◌≢◌, refl, sym, ◌∙◌, inl, inr, true, false, Bool-cases,
  Option, none, some, List, [], ◌∷◌, get_elem?, length, Option-cases, Text, arith, All, eq_text,
}
use nimble_sdk.Prelude.Int.{pos}
use nimble_sdk.Status.{terminal_error, retryable_error}
use nimble_sdk.FeatureStore.{FeatureStoreManager, get_read_lock}
use nimble_sdk.FeatureStore.Laws.{get_feature-some}
use nimble_sdk.Executor.Structs.{
  ElementTypes, TensorInfo, InputBytes, get_field_size_from_data_type, preprocessor_input_type,
}
use nimble_sdk.Executor.Model.{
  Row, UserInput, Progress, Loop, load_input, load_inputs, client_input, check_input, as_raw,
  as_rows, field_size,
}
use nimble_sdk.Executor.Model.Ends.{
  HasMemory, Ends, Ends-map, Ends-return, Keeps, Keeps-trans, place-Ends,
}

-- The pointers of a request are what their data types say.
abbrev pub WellTyped : ElementTypes → UserInput → Type 0
WellTyped e r =
    (get_field_size_from_data_type e r.data_type ≢ 0
      → (bytes : List ℕ) × (as_raw r.content ≡ some bytes))
    × (r.data_type ≡ preprocessor_input_type
        → (input : List Row) × (as_rows r.content ≡ some input))

pub client_input-All :
    (P : UserInput → Type 0) (name : Text) (req : List UserInput) (r : UserInput)
    → All P req
    → client_input name req ≡ some r
    → P r
unfolding client_input
client_input-All P name [] r h g = cc
client_input-All P name (q ∷ req) r (h, hs) g = elim (Bool-cases (eq_text name q.name)) [
  | inl s ↦
      let found : client_input name (q ∷ req) ≡ some q = rw s refl in
      let same : q ≡ r = ground (arith, g, found) in rw (sym same) h
  | inr s ↦
      let next : client_input name (q ∷ req) ≡ client_input name req = rw s refl in
      client_input-All P name req r hs (sym next ∙ g)
]

-- What check_input lets through has a type with a size.
check_input-size :
    (e : ElementTypes) (t : TensorInfo) (data_type n : ℕ)
    → check_input e t (pos data_type) n ≡ true
    → get_field_size_from_data_type e data_type ≢ 0
unfolding check_input field_size
check_input-size e t data_type n h z =
    let r : check_input e t (pos data_type) n ≡ false = rw z refl in cc

module _ (e : ElementTypes) {U : Type 0}
    (model_input : U → Text → List Row → Option (U × Option InputBytes)) (Good : U → Type 0) where
  -- Every input of the list, the first of them at i, that is not left to a preprocessor.
  abbrev pub Loaded : List TensorInfo → ℕ → Progress e model_input → Type 0
  Loaded ts i p =
      (j : ℕ) (t : TensorInfo)
      → get_elem? ts j ≡ some t
      → t.to_preprocess ≡ false
      → HasMemory p.tensors (i + j)

  Loaded-cons :
      (t : TensorInfo) (ts : List TensorInfo) (i : ℕ) (p p' : Progress e model_input)
      → (t.to_preprocess ≡ false → HasMemory p'.tensors i)
      → Loaded ts (i + 1) p'
      → Loaded (t ∷ ts) i p'
  Loaded-cons t ts i p p' here rest zero u g n =
      let same : t ≡ u = ground (arith, g) in
      let at : i + zero ≡ i = omega arith in rw at (here (rw same n))
  Loaded-cons t ts i p p' here rest (suc j) u g n =
      let at : i + suc j ≡ i + 1 + j = omega arith in rw at (rest j u g n)

  load_input-Ends :
      {Q : Progress e model_input → Type 0} (features : FeatureStoreManager) (req : List UserInput)
      (t : TensorInfo) (i : ℕ) (p : Progress e model_input)
      (next : Progress e model_input → Loop e model_input)
      → All (WellTyped e) req
      → i < length p.tensors
      → ((p' : Progress e model_input)
          → Keeps e model_input Good p p'
          → (t.to_preprocess ≡ false → HasMemory p'.tensors i)
          → Ends e model_input Good Q (next p'))
      → Ends e model_input Good Q (load_input e model_input features req t i p next)
  unfolding load_input
  load_input-Ends features req t i p next w l f =
      let placed = λ (bytes : List ℕ).
        place-Ends e model_input Good t i bytes p next l (λ p' k h. f p' k (λ n. h)) in
      let terminal = Ends-return e model_input Good terminal_error p in
      let retryable = Ends-return e model_input Good retryable_error p in
      elim (Bool-cases t.to_preprocess) [
        | inl s ↦ rw (load_input, s) (f p (refl, λ j h. h, λ g. g) (λ n. ground (arith, s, n)))
        | inr s ↦ elim (Bool-cases t.is_feature) [
          | inl s' ↦ elim (Bool-cases (get_read_lock features t.feature_name)) [
            | inl r ↦
                let (feature, v) = get_feature-some features t.feature_name r in
                elim (Bool-cases (check_input e t feature.data_type (length feature.bytes))) [
                  | inl c ↦ rw (load_input, s, s', r, v, c) (placed feature.bytes)
                  | inr c ↦ rw (load_input, s, s', r, v, c) terminal
                ]
            | inr r ↦ rw (load_input, s, s', r) retryable
          ]
          | inr s' ↦ elim (Option-cases (client_input t.name req)) [
            | inl n ↦ rw (load_input, s, s', n) terminal
            | inr (r, found) ↦
                let n = r.length * get_field_size_from_data_type e r.data_type in
                elim (Bool-cases (check_input e t (pos r.data_type) n)) [
                  | inl c ↦
                      let typed = client_input-All (WellTyped e) t.name req r w found in
                      let (bytes, b) = typed.0 (check_input-size e t r.data_type n c) in
                      rw (load_input, s, s', found, c, b) (placed bytes)
                  | inr c ↦ rw (load_input, s, s', found, c) terminal
                ]
          ]
        ]
      ]

  pub load_inputs-Ends :
      (features : FeatureStoreManager) (req : List UserInput) (ts : List TensorInfo) (i : ℕ)
      (p : Progress e model_input)
      → All (WellTyped e) req
      → i + length ts ≤ length p.tensors
      → Ends e model_input Good
          (λ p'. Keeps e model_input Good p p' × Loaded ts i p')
          (load_inputs e model_input features req ts i p)
  unfolding load_inputs
  load_inputs-Ends features req [] i p w l =
      (p, none, refl, λ n. ((refl, λ j h. h, λ g. g), λ j t g n. cc))
  load_inputs-Ends features req (t ∷ ts) i p w l =
      load_input-Ends features req t i p (load_inputs e model_input features req ts (i + 1)) w
        (omega (arith, l))
        (λ p1 k here.
          Ends-map e model_input Good (load_inputs e model_input features req ts (i + 1) p1)
            (λ p' (k', f). (
              Keeps-trans e model_input Good p p1 p' k k',
              Loaded-cons t ts i p p' (λ n. k'.1 i (here n)) f,
            ))
            (load_inputs-Ends features req ts (i + 1) p1 w (omega (arith, l, k.0))))
