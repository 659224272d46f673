-- ===== src/UserEvents/Manager/Routes.antt =====
-- The two maps of UserEventsManager: the tables by name, and the table of each model input.
use nimble_sdk.Prelude.{
  ℕ, ◌≡◌, refl, Bool, true, false, not, Option, some, List, [], ◌∷◌, Text, if◌then◌else◌, ◌>>=◌,
  arith, IfSome, IfSome->>=, IfSome-bind, IfSome-if, IfSome-choice,
}
use nimble_sdk.Prelude.Map.{Map, find, insert, contains, find-insert, find-insert_self}
use nimble_sdk.Json.{Json}
use nimble_sdk.UserEvents.Structs.{TableInfo, PreProcessorInfo}
use nimble_sdk.UserEvents.Scalar.{Scalar}
use nimble_sdk.UserEvents.TableStore
use nimble_sdk.UserEvents.TableStore.{Element, TableStore}
use nimble_sdk.UserEvents.Manager.{
  Database, Manager, create_table, create_tables, new_manager, fill_in_memory, create_preprocessor,
  add_event, get_model_input,
}

contains-insert {ℓ} :
    {V : Type ℓ} (k j : Text) (v : V) (m : Map V)
    → contains k m ≡ true
    → contains k (insert j v m) ≡ true
contains-insert k j v m h = ground (arith, find-insert k j v m, h)

contains-insert_self {ℓ} :
    {V : Type ℓ} (k : Text) (v : V) (m : Map V) → contains k (insert k v m) ≡ true
contains-insert_self k v m = rw (find-insert_self k v m) refl

-- Every model input is routed to a table that is there.
abbrev pub Routed {ℓ} : {V : Type ℓ} → Map Text → Map V → Type 0
Routed inputs stores =
    (identifier name : Text) → find identifier inputs ≡ some name → contains name stores ≡ true

Routed-insert_table {ℓ} :
    {V : Type ℓ} (inputs : Map Text) (stores : Map V) (name : Text) (v : V)
    → Routed inputs stores
    → Routed inputs (insert name v stores)
Routed-insert_table inputs stores name v h identifier n e =
    contains-insert n name v stores (h identifier n e)

Routed-insert_input {ℓ} :
    {V : Type ℓ} (inputs : Map Text) (stores : Map V) (identifier name : Text) (v : V)
    → Routed inputs stores
    → Routed (insert identifier name inputs) (insert name v stores)
Routed-insert_input inputs stores identifier name v h i n e = ground (
  arith,
  find-insert i identifier name inputs,
  e,
  contains-insert_self name v stores,
  contains-insert n name v stores,
  h i n,
)

module _ (numbers : Element → Scalar) (json : Json) (items : json.J → List Text)
    (sql : Database) where
  abbrev M : Type 0
  M = Manager numbers json items sql

  -- Every model input of a manager is routed to a table that is there.
  abbrev IsRouted : M → Type 0
  IsRouted m = Routed m.model_inputs m.table_stores

  create_table-Routed :
      (now : ℕ) (m : M) (info : TableInfo)
      → IsRouted m
      → IfSome (λ r. IsRouted r.0) (create_table numbers json items sql now m info)
  unfolding create_table
  create_table-Routed now m info h = search (IfSome-bind, IfSome-if, Routed-insert_table)

  create_tables-Routed :
      (now : ℕ) (m : M) (infos : List TableInfo)
      → IsRouted m
      → IfSome IsRouted (create_tables numbers json items sql now m infos)
  unfolding create_tables
  create_tables-Routed now m [] h = h
  create_tables-Routed now m (info ∷ infos) h =
      IfSome->>= (λ r. IsRouted r.0) _ _ _ (create_table-Routed now m info h)
        (λ r k. create_tables-Routed now r.0 infos k)

  fill_in_memory-Routed :
      (now : ℕ) (m : M) (name : Text) (store : TableStore numbers)
      → IsRouted m
      → IfSome (λ r. IsRouted r.0) (fill_in_memory numbers json items sql now m name store)
  unfolding fill_in_memory
  fill_in_memory-Routed now m name store h = search (IfSome-bind, IfSome-if, Routed-insert_table)

  -- The rest of create_preprocessor, once the table is in memory.
  create_filled-Routed :
      (now : ℕ) (m : M) (store : TableStore numbers) (ok : Bool) (t : Element) (identifier : Text)
      (info : PreProcessorInfo (numbers t).T)
      → IsRouted m
      → IfSome
          (λ (r : M × Bool). IsRouted r.0)
          (if not ok then some (m, false) else (do
            (t'', made) ← TableStore.create_preprocessor numbers now store t identifier info
            some (
              record m {
                model_inputs = insert identifier info.table_name m.model_inputs;
                table_stores = insert info.table_name t'' m.table_stores;
              },
              made,
            )))
  create_filled-Routed now m store ok t identifier info h =
      search (IfSome-bind, IfSome-if, Routed-insert_input)

  create_preprocessor-Routed :
      (now : ℕ) (m : M) (t : Element) (identifier : Text) (info : PreProcessorInfo (numbers t).T)
      → IsRouted m
      → IfSome
          (λ r. IsRouted r.0)
          (create_preprocessor numbers json items sql now m t identifier info)
  unfolding create_preprocessor
  create_preprocessor-Routed now m t identifier info h = IfSome-if _ (not info.valid) _ _ h (
      IfSome-choice _ (find info.table_name m.table_stores) _ _ h (λ store.
        IfSome->>= (λ r. IsRouted r.0) _ _ _ (fill_in_memory-Routed now m info.table_name store h)
          (λ (m', t', ok) k. create_filled-Routed now m' t' ok t identifier info k)))

  add_event-Routed :
      (now later last : ℕ) (m : M) (event name : Text)
      → IsRouted m
      → IfSome (λ r. IsRouted r.0) (add_event numbers json items sql now later last m event name)
  unfolding add_event
  add_event-Routed now later last m event name h =
      IfSome-choice _ (find name m.table_stores) _ _ h (λ store.
        IfSome-choice _ (json.parse event) _ _ h
          (λ j. search (IfSome-bind, IfSome-if, Routed-insert_table)))

  get_model_input-Routed :
      (now : ℕ) (m : M) (identifier : Text) (inputs : List (List (Text × Text)))
      → IsRouted m
      → IfSome (λ r. IsRouted r.0) (get_model_input numbers json items sql now m identifier inputs)
  unfolding get_model_input
  get_model_input-Routed now m identifier inputs h =
      IfSome-choice _ (find identifier m.model_inputs) _ _ h (λ name.
        IfSome-choice _ (find name m.table_stores) _ _ h
          (λ store. search (IfSome-bind, Routed-insert_table)))

  -- What a client does with the manager.
  pub data Call : Type 0 where
    create : ℕ → (t : Element) → Text → PreProcessorInfo (numbers t).T → Call
    add : ℕ → ℕ → ℕ → Text → Text → Call
    ask : ℕ → Text → List (List (Text × Text)) → Call

  unfoldable pub call : Call → M → Option M
  call (create now t identifier info) m = do
    (m', made) ← create_preprocessor numbers json items sql now m t identifier info
    some m'
  call (add now later last event name) m = do
    (m', added) ← add_event numbers json items sql now later last m event name
    some m'
  call (ask now identifier inputs) m = do
    (m', input) ← get_model_input numbers json items sql now m identifier inputs
    some m'

  unfoldable pub calls : List Call → M → Option M
  unfolding call
  calls [] m = some m
  calls (c ∷ cs) m = do m' ← call c m; calls cs m'

  call-Routed : (c : Call) (m : M) → IsRouted m → IfSome IsRouted (call c m)
  unfolding call
  call-Routed (create now t identifier info) m h =
      IfSome->>= (λ r. IsRouted r.0) _
        (create_preprocessor numbers json items sql now m t identifier info) _
        (create_preprocessor-Routed now m t identifier info h) (λ r k. k)
  call-Routed (add now later last event name) m h =
      IfSome->>= (λ r. IsRouted r.0) _
        (add_event numbers json items sql now later last m event name) _
        (add_event-Routed now later last m event name h) (λ r k. k)
  call-Routed (ask now identifier inputs) m h =
      IfSome->>= (λ r. IsRouted r.0) _
        (get_model_input numbers json items sql now m identifier inputs) _
        (get_model_input-Routed now m identifier inputs h) (λ r k. k)

  calls-Routed : (cs : List Call) (m : M) → IsRouted m → IfSome IsRouted (calls cs m)
  unfolding calls
  calls-Routed [] m h = h
  calls-Routed (c ∷ cs) m h =
      IfSome->>= IsRouted _ (call c m) _ (call-Routed c m h) (λ m' k. calls-Routed cs m' k)

  -- After the manager was made and any sequence of its calls, if no fault stopped them, the table of
  -- every model input is there: the second lookup of get_model_input cannot miss.
  pub manager-Routed :
      (now : ℕ) (db : sql.D) (debug : Bool) (infos : List TableInfo) (cs : List Call)
      → IfSome
          (λ m.
            (identifier name : Text)
            → find identifier m.model_inputs ≡ some name
            → contains name m.table_stores ≡ true)
          (new_manager numbers json items sql now db debug infos >>= calls cs)
  unfolding new_manager find
  manager-Routed now db debug infos cs =
      let m : M = record { db = db; table_stores = []; model_inputs = []; debug_mode = debug } in
      let none_routed : IsRouted m = λ identifier name e. cc in
      IfSome->>= IsRouted _ (create_tables numbers json items sql now m infos) _
        (create_tables-Routed now m infos none_routed) (λ m' k. calls-Routed cs m' k)
