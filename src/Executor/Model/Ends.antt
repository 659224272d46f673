-- ===== src/Executor/Model/Ends.antt =====
-- How the loops of get_inference end, and which tensors have memory when they do.
use nimble_sdk.Prelude.{
  Bool, if◌then◌else◌, ℕ, ◌<◌, ◌≡◌, ◌≢◌, refl, sym, ap, ◌∙◌, inl, inr, true, false, Bool-cases,
  Option, none, some, List, ◌==◌, ==_iff, get_elem?, get_elem?-set_self, get_elem?-set_ne, length,
  length-set, set, Option-cases, Text, arith,
}
use nimble_sdk.Prelude.Int.{ℤ}
use nimble_sdk.Status.{terminal_error}
use nimble_sdk.Executor.Structs.{
  ElementTypes, TensorInfo, InputBytes, get_field_size_from_data_type,
}
use nimble_sdk.Executor.Model.{Tensor, Row, Progress, Loop, return_with, place, create_ort_tensor}

-- A tensor that is there and has memory.
abbrev pub HasMemory : List (Option Tensor) → ℕ → Type 0
HasMemory vs i =
    (t : Tensor) × (get_elem? vs i ≡ some (some t)) × (bytes : List ℕ) × (t.memory ≡ some bytes)

pub HasMemory-set_self :
    (vs : List (Option Tensor)) (i : ℕ) (t : Tensor) (bytes : List ℕ)
    → i < length vs
    → t.memory ≡ some bytes
    → HasMemory (set vs i (some t)) i
HasMemory-set_self vs i t bytes l m = (t, get_elem?-set_self vs i (some t) l, bytes, m)

pub HasMemory-set :
    (vs : List (Option Tensor)) (i j : ℕ) (t : Tensor) (bytes : List ℕ)
    → i < length vs
    → t.memory ≡ some bytes
    → HasMemory vs j
    → HasMemory (set vs i (some t)) j
HasMemory-set vs i j t bytes l m (u, g, kept, h) = elim (Bool-cases (i == j)) [
  | inl s ↦ let same = (==_iff i j).0 s in rw (sym same) (HasMemory-set_self vs i t bytes l m)
  | inr s ↦ let ne : i ≢ j = ground arith in (u, get_elem?-set_ne vs i j (some t) ne ∙ g, kept, h)
]

made_of : (b : Bool) (t v : Tensor) → (if b then none else some t) ≡ some v → t ≡ v
made_of true t v h = cc
made_of false t v h = ground (arith, h)

module _ (e : ElementTypes) {U : Type 0}
    (model_input : U → Text → List Row → Option (U × Option InputBytes)) (Good : U → Type 0) where
  -- A loop has no fault, and its end, if it does not return from the method, has the property.
  abbrev pub Ends : (Progress e model_input → Type 0) → Loop e model_input → Type 0
  Ends Q loop =
      (p : Progress e model_input) × (status : Option ℤ) × (loop ≡ some (p, status))
      × (status ≡ none → Q p)

  pub Ends-map :
      {Q R : Progress e model_input → Type 0} (loop : Loop e model_input)
      → ((p : Progress e model_input) → Q p → R p)
      → Ends Q loop
      → Ends R loop
  Ends-map loop f (p, status, q, h) = (p, status, q, λ n. f p (h n))

  pub Ends-return :
      {Q : Progress e model_input → Type 0} (status : ℤ) (p : Progress e model_input)
      → Ends Q (return_with e model_input status p)
  Ends-return status p = (p, some status, refl, λ n. cc)

  -- The tensors that have memory keep it, and a good state of the user events stays good.
  abbrev pub Keeps : Progress e model_input → Progress e model_input → Type 0
  Keeps p p' =
      (length p'.tensors ≡ length p.tensors)
      × ((j : ℕ) → HasMemory p.tensors j → HasMemory p'.tensors j)
      × (Good p.events → Good p'.events)

  pub Keeps-trans : (p p' p'' : Progress e model_input) → Keeps p p' → Keeps p' p'' → Keeps p p''
  Keeps-trans p p' p'' (a, f, h) (b, g, k) = (b ∙ a, λ j m. g j (f j m), λ good. k (h good))

  create_ort_tensor-memory :
      (t : TensorInfo) (bytes : List ℕ) (v : Tensor)
      → create_ort_tensor e t bytes ≡ some v
      → v.memory ≡ some bytes
  unfolding create_ort_tensor
  create_ort_tensor-memory t bytes v h =
      let size = get_field_size_from_data_type e t.data_type in
      sym (ap (λ t. t.memory) (made_of (size == 0) _ v h))

  -- A tensor that is placed has memory, and the others keep theirs.
  pub place-Ends :
      {Q : Progress e model_input → Type 0} (t : TensorInfo) (i : ℕ) (bytes : List ℕ)
      (p : Progress e model_input) (next : Progress e model_input → Loop e model_input)
      → i < length p.tensors
      → ((p' : Progress e model_input) → Keeps p p' → HasMemory p'.tensors i → Ends Q (next p'))
      → Ends Q (place e model_input t i bytes p next)
  place-Ends t i bytes p next l f = elim (Option-cases (create_ort_tensor e t bytes)) [
    | inl n ↦ rw (place, n) (Ends-return terminal_error p)
    | inr (v, s) ↦
        let m = create_ort_tensor-memory t bytes v s in
        let p' = record p { tensors = set p.tensors i (some v) } in
        rw (place, s)
          (f p'
            (
              length-set p.tensors i (some v),
              λ j h. HasMemory-set p.tensors i j v bytes l m h,
              λ good. good,
            )
            (HasMemory-set_self p.tensors i v bytes l m))
  ]
