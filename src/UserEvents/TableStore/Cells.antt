-- ===== src/UserEvents/TableStore/Cells.antt =====
-- The model inputs of a table are as long as they say, whatever the table has seen.
use nimble_sdk.Prelude.{
  ℕ, suc, ◌*◌, ◌≡◌, ap, refl, sym, Bool, false, Option, none, some, List, [], ◌∷◌, Text, eq_text,
  length, ◌>>=◌, inl, inr, Option-cases, replicate, IfSome, IfSome->>=, IfSome-bind, IfSome-if,
  IfSome-choice, IfSome-some,
}
use nimble_sdk.Prelude.Map.{find}
use nimble_sdk.UserEvents.Structs.{TableEvent, TableRow, TableInfo, PreProcessorInfo, ModelInput}
use nimble_sdk.UserEvents.Scalar.{Scalar}
use nimble_sdk.UserEvents.PreProcessor.Cells.{AreCells, IsLong, get_model_input-AreCells}
use nimble_sdk.UserEvents.TableStore.{
  Element, AnyPreProcessor, preprocessor, AnyModelInput, model_input, TableStore, new_table_store,
  set_to_fill_in_memory, fill_row, group_of_row, add_row, create_preprocessor, groups_of_inputs,
  model_input_of, get_model_input,
}
use nimble_sdk.UserEvents.TableStore.Tables.{
  CellsOf, AllCells-set, AllCells-get, IsTable, add_row-IsTable, create_preprocessor-IsTable,
}

module _ (numbers : Element → Scalar) where
  -- A group for each input, if they can all be formed.
  abbrev AsMany : List (List (Text × Text)) → Option (List Text) → Type 0
  AsMany inputs none = Unit
  AsMany inputs (some groups) = length groups ≡ length inputs

  AsMany-one :
      (group : Text) (inputs : List (List (Text × Text))) (input : List (Text × Text))
      (groups : Option (List Text))
      → AsMany inputs groups
      → AsMany
          (input ∷ inputs)
          (elim groups as (λ _. Option (List Text)) [ none ↦ none | some gs ↦ some (group ∷ gs) ])
  AsMany-one group inputs input none h = tt
  AsMany-one group inputs input (some gs) h = ap suc h

  groups_of_inputs-AsMany :
      (t : TableStore numbers) (p : AnyPreProcessor numbers) (inputs : List (List (Text × Text)))
      → IfSome (AsMany inputs) (groups_of_inputs numbers t p inputs)
  unfolding groups_of_inputs
  groups_of_inputs-AsMany t p [] = refl
  groups_of_inputs-AsMany t p (input ∷ inputs) =
      let (row, filled) =
        fill_row t.column_to_id input (replicate (length t.columns) [])
          (replicate (length t.columns) false) in
      IfSome-bind _ (group_of_row numbers p row filled) _ (λ group.
        IfSome-if _ (eq_text group []) _ _ tt (
          IfSome->>= (AsMany inputs) _ _ _ (groups_of_inputs-AsMany t p inputs)
            (λ groups h. AsMany-one group inputs input groups h)))

  -- The values of a model input are as many as it says, and equally many for each of the requests.
  abbrev pub IsModelInput : ℕ → Option (AnyModelInput numbers) → Type 0
  IsModelInput requests none = Unit
  IsModelInput requests (some (model_input t i)) =
      (length i.values ≡ i.length) × (cells : ℕ) × (i.length ≡ requests * cells)

  IsModelInput-IsLong :
      (t : Element) (requests groups : ℕ) (input : Option (ModelInput (numbers t).T))
      → groups ≡ requests
      → IsLong (numbers t) groups input
      → IsModelInput requests (elim input as (λ _. Option (AnyModelInput numbers)) [
        | none ↦ none
        | some i ↦ some (model_input t i)
      ])
  IsModelInput-IsLong t requests groups none e h = tt
  IsModelInput-IsLong t requests groups (some i) e (h, cells, k) = (h, cells, rw (sym e) k)

  model_input_of-IsModelInput :
      (now : ℕ) (p : AnyPreProcessor numbers) (groups : List Text) (all_events : List TableEvent)
      (requests : ℕ)
      → length groups ≡ requests
      → CellsOf numbers p
      → IfSome
          (λ r. CellsOf numbers r.0 × IsModelInput requests r.1)
          (model_input_of numbers now p groups all_events)
  model_input_of-IsModelInput now (preprocessor t p) groups all_events requests e h =
      IfSome->>= (λ r. AreCells r.0 × IsLong (numbers t) (length groups) r.1) _ _ _
        (get_model_input-AreCells (numbers t) now p groups all_events h)
        (λ r k. (k.0, IsModelInput-IsLong t requests (length groups) r.1 e k.1))

  get_model_input-IsTable :
      (now : ℕ) (t : TableStore numbers) (identifier : Text) (inputs : List (List (Text × Text)))
      → IsTable numbers t
      → IfSome
          (λ r. IsTable numbers r.0 × IsModelInput (length inputs) r.1)
          (get_model_input numbers now t identifier inputs)
  unfolding get_model_input
  get_model_input-IsTable now t identifier inputs h =
      IfSome-choice _ (find identifier t.model_input_preprocessor_id) _ _ (h, tt)
        (λ id.
          IfSome->>= (CellsOf numbers) _ _ _ (AllCells-get numbers t.preprocessors id h) (λ p k.
            IfSome->>= (AsMany inputs) _ _ _ (groups_of_inputs-AsMany t p inputs) (λ groups as_many.
              elim (Option-cases groups) [
                | inl nothing ↦ rw nothing (h, tt)
                | inr (gs, e) ↦
                    let many : length gs ≡ length inputs = rw e at as_many in
                    rw e (
                      IfSome->>= (λ r. CellsOf numbers r.0 × IsModelInput (length inputs) r.1) _ _ _
                        (model_input_of-IsModelInput now p gs t.all_events (length inputs) many k)
                        (λ r k'. (AllCells-set numbers t.preprocessors id r.0 h k'.0, k'.1)))
              ])))

  -- What may be asked of a table.
  pub data Call : Type 0 where
    fill : Call
    row : ℕ → TableRow → Call
    create : ℕ → (t : Element) → Text → PreProcessorInfo (numbers t).T → Call
    ask : ℕ → Text → List (List (Text × Text)) → Call

  unfoldable pub call : Call → TableStore numbers → Option (TableStore numbers)
  call fill t = some (set_to_fill_in_memory numbers t)
  call (row now r) t = add_row numbers now t r
  call (create now element identifier info) t = do
    (t', made) ← create_preprocessor numbers now t element identifier info
    some t'
  call (ask now identifier inputs) t = do
    (t', input) ← get_model_input numbers now t identifier inputs
    some t'

  unfoldable pub calls : List Call → TableStore numbers → Option (TableStore numbers)
  unfolding call
  calls [] t = some t
  calls (x ∷ xs) t = do t' ← call x t; calls xs t'

  call-IsTable :
      (x : Call) (t : TableStore numbers) → IsTable numbers t → IfSome (IsTable numbers) (call x t)
  unfolding call
  call-IsTable fill t h = h
  call-IsTable (row now r) t h = add_row-IsTable numbers now t r h
  call-IsTable (create now element identifier info) t h =
      IfSome->>= (λ (r : TableStore numbers × Bool). IsTable numbers r.0) _ _ _
        (create_preprocessor-IsTable numbers now t element identifier info h) (λ r k. k)
  call-IsTable (ask now identifier inputs) t h =
      IfSome->>= (λ r. IsTable numbers r.0 × IsModelInput (length inputs) r.1) _ _ _
        (get_model_input-IsTable now t identifier inputs h) (λ r k. k.0)

  calls-IsTable :
      (xs : List Call) (t : TableStore numbers)
      → IsTable numbers t
      → IfSome (IsTable numbers) (calls xs t)
  unfolding calls
  calls-IsTable [] t h = h
  calls-IsTable (x ∷ xs) t h =
      IfSome->>= (IsTable numbers) _ (call x t) _ (call-IsTable x t h)
        (λ t' k. calls-IsTable xs t' k)

  -- Whatever rows, preprocessors and requests a new table has seen, in any order and with no fault, a
  -- model input that get_model_input then makes has as many values as its length says, and equally
  -- many for each of the requests.
  pub model_input-cells :
      (info : TableInfo) (xs : List Call) (t t' : TableStore numbers) (now : ℕ) (identifier : Text)
      (inputs : List (List (Text × Text))) (e : Element) (i : ModelInput (numbers e).T)
      → calls xs (new_table_store numbers info) ≡ some t
      → get_model_input numbers now t identifier inputs ≡ some (t', some (model_input e i))
      → (length i.values ≡ i.length) × (cells : ℕ) × (i.length ≡ length inputs * cells)
  unfolding new_table_store
  model_input-cells info xs t t' now identifier inputs e i seen made =
      let h =
        IfSome-some (IsTable numbers) (calls xs (new_table_store numbers info)) t seen
          (calls-IsTable xs (new_table_store numbers info) tt) in
      (IfSome-some (λ r. IsTable numbers r.0 × IsModelInput (length inputs) r.1)
        (get_model_input numbers now t identifier inputs) (t', some (model_input e i)) made
        (get_model_input-IsTable now t identifier inputs h)).1
