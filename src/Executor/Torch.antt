-- ===== src/Executor/Torch.antt =====
-- nimblenet/Executors/pytorch: the executor of a build with libtorch, which is the argument `torch`.
-- `alive` counts the modules that are made and not deleted. `none` is a fault or an exception.
use nimble_sdk.Prelude.{
  ℕ, suc, ◌-◌, Bool, true, false, not, Option, none, some, List, [], ◌∷◌, ◌++◌, Text, length, leb,
  ◌==◌, if◌then◌else◌, ◌>>=◌,
}
use nimble_sdk.Executor.Structs.{size_of_shape}

-- Floats are of the type F; shapes have extents that are not negative.
pub record TorchTensor (F : Type 0) : Type 0 where
  pub shape : List ℕ
  pub values : List F

pub record Torch : Type 1 where
  pub F : Type 0
  pub Module : Type 0
  pub stoll : Text → Option ℕ
  pub stof : Text → Option F
  pub load : Text → Option Module
  pub set_model_params : Module → List (TorchTensor F) → Option Module
  -- `forward`, and the first dimension of the squeezed output.
  pub forward : Module → TorchTensor F → Option (List F)

pub record TorchModel (M : Type 0) : Type 0 where
  pub mod_ptr : M
  pub model_loaded : Bool

-- The pieces that getline reads up to a separator.
unfoldable pub pieces : ℕ → Text → Text → List Text
pieces separator [] [] = []
pieces separator [] (c ∷ piece) = (c ∷ piece) ∷ []
pieces separator (c ∷ t) piece =
    let rest = pieces separator t (if c == separator then [] else piece ++ c ∷ []) in
    if c == separator then piece ∷ rest else rest

unfoldable pub find_model {ℓ} : {A : Type ℓ} → ℕ → List (ℕ × A) → Option A
find_model id [] = none
find_model id ((i, m) ∷ models) = if i == id then some m else find_model id models

unfoldable pub erase_model {ℓ} : {A : Type ℓ} → ℕ → List (ℕ × A) → List (ℕ × A)
erase_model id [] = []
erase_model id ((i, m) ∷ models) =
    let rest = erase_model id models in if i == id then rest else (i, m) ∷ rest

abbrev pub put_model {ℓ} : {A : Type ℓ} → ℕ → A → List (ℕ × A) → List (ℕ × A)
put_model id m models = (id, m) ∷ erase_model id models

module _ (torch : Torch) where
  open torch use {F, Module, stoll, stof, load, set_model_params, forward}

  pub record TorchExecutor : Type 0 where
    pub model_map : List (ℕ × TorchModel Module)
    pub alive : ℕ

  -- from_blob and what is read of the memory: a fault if there is less than the shape asks for.
  unfoldable pub from_blob : List F → List ℕ → Option (TorchTensor F)
  from_blob values shape =
      if leb (size_of_shape shape) (length values)
      then some (record { shape = shape; values = values })
      else none

  unfoldable pub all_shape : List Text → Option (List ℕ)
  all_shape [] = some []
  all_shape (w ∷ ws) = do n ← stoll w; ns ← all_shape ws; some (n ∷ ns)

  unfoldable pub all_floats : List Text → Option (List F)
  all_floats [] = some []
  all_floats (w ∷ ws) = do x ← stof w; xs ← all_floats ws; some (x ∷ xs)

  -- The loop over the lines: a line of a shape, then one of its values.
  unfoldable pub tensors_of : List Text → Option (List (TorchTensor F))
  unfolding pieces from_blob all_shape all_floats
  tensors_of [] = some []
  tensors_of (line ∷ []) = do shape ← all_shape (pieces b',' line []); some []
  tensors_of (line ∷ values ∷ lines) = do
    shape ← all_shape (pieces b',' line [])
    floats ← all_floats (pieces b',' values [])
    t ← from_blob floats shape
    ts ← tensors_of lines
    some (t ∷ ts)

  unfoldable pub get_tensors_from_model_string : Text → Option (List (TorchTensor F))
  unfolding tensors_of pieces
  get_tensors_from_model_string model = tensors_of (pieces 10 model [])

  unfoldable pub load_model : Text → ℕ → TorchExecutor → Option (TorchExecutor × Bool)
  unfolding get_tensors_from_model_string find_model erase_model
  load_model model id x = elim (find_model id x.model_map) [
    | none ↦ some (x, false)
    | some info ↦ (do
      tensors ← get_tensors_from_model_string model
      loaded ← set_model_params info.mod_ptr tensors
      some (
        record x {
          model_map = put_model id (record { mod_ptr = loaded; model_loaded = true }) x.model_map;
        },
        true,
      ))
  ]

  -- The module that is made under the `if` is lost when its entry is overwritten below.
  unfoldable pub load_plan : Text → ℕ → TorchExecutor → Option (TorchExecutor × Bool)
  unfolding find_model erase_model
  load_plan plan id x =
      let models = λ (loaded : Module).
        put_model id (record { mod_ptr = loaded; model_loaded = false }) x.model_map in
      do
        loaded ← load plan
        let replaced : ℕ = elim (find_model id x.model_map) [
          | none ↦ x.alive
          | some info ↦ suc (x.alive - 1)
        ]
        some (record { model_map = models loaded; alive = suc replaced }, true)

  unfoldable pub load_model_and_plan :
      ℕ → Text → Text → TorchExecutor → Option (TorchExecutor × Bool)
  unfolding load_plan load_model
  load_model_and_plan id model plan x = do
    (x', planned) ← load_plan plan id x
    if planned then load_model model id x' else some (x', false)

  unfoldable pub delete_model_and_plan : ℕ → TorchExecutor → TorchExecutor × Bool
  unfolding find_model erase_model
  delete_model_and_plan id x = elim (find_model id x.model_map) [
    | none ↦ (x, true)
    | some info ↦ (record { model_map = erase_model id x.model_map; alive = x.alive - 1 }, true)
  ]

  -- `none` inside is a null pointer.
  unfoldable pub get_inference : ℕ → List F → List ℕ → TorchExecutor → Option (Option (List F))
  unfolding find_model from_blob
  get_inference id input shape x = elim (find_model id x.model_map) [
    | none ↦ some none
    | some info ↦
        if not info.model_loaded
        then some none
        else (do t ← from_blob input shape; preds ← forward info.mod_ptr t; some (some preds))
  ]

  unfoldable pub check_model_loaded : ℕ → TorchExecutor → Bool
  unfolding find_model
  check_model_loaded id x = elim (find_model id x.model_map) [
    | none ↦ false
    | some info ↦ info.model_loaded
  ]

  unfoldable pub check_plan_loaded : ℕ → TorchExecutor → Bool
  unfolding find_model
  check_plan_loaded id x = elim (find_model id x.model_map) [ none ↦ false | some info ↦ true ]
