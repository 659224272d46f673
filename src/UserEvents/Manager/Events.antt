-- ===== src/UserEvents/Manager/Events.antt =====
-- What add_event and create_preprocessor of UserEventsManager do to the tables.
use nimble_sdk.Prelude.{
  ℕ, ◌≡◌, ◌∙◌, refl, ap, Bool, true, false, not, none, some, List, [], ◌∷◌, Text, eq_text, IfSome,
  IfSome->>=, IfSome-bind, IfSome-if, IfSome-choice, IfSome-else,
}
use nimble_sdk.Prelude.Map.{find, insert, find-insert, find-insert_self}
use nimble_sdk.Json.{Json}
use nimble_sdk.UserEvents.Structs.{TableRow, PreProcessorInfo}
use nimble_sdk.UserEvents.Scalar.{Scalar}
use nimble_sdk.UserEvents.TableStore
use nimble_sdk.UserEvents.TableStore.{
  Element, TableStore, set_to_fill_in_memory, add_row, row_values,
}
use nimble_sdk.UserEvents.Manager.{
  Database, Manager, fill_in_memory, create_preprocessor, add_rows_to_table_store, add_event,
  Fields, read_fields, select_command,
}

module _ (numbers : Element → Scalar) (json : Json) (items : json.J → List Text)
    (sql : Database) where
  abbrev M : Type 0
  M = Manager numbers json items sql

  -- What adding an event to a table may do.
  abbrev Adds : M → Text → M × Bool → Type 0
  Adds m name (m', added) =
      (m'.model_inputs ≡ m.model_inputs)
      × (added ≡ false → m'.table_stores ≡ m.table_stores)
      × ((other : Text)
          → eq_text other name ≡ false
          → find other m'.table_stores ≡ find other m.table_stores)

  Adds-refused : (m : M) (name : Text) (db : sql.D) → Adds m name (record m { db = db }, false)
  Adds-refused m name db = (refl, λ f. refl, λ other e. refl)

  Adds-same : (m : M) (name : Text) → Adds m name (m, false)
  Adds-same m name = (refl, λ f. refl, λ other e. refl)

  Adds-insert :
      (m : M) (name : Text) (db : sql.D) (t : TableStore numbers)
      → Adds m name (record m { db = db; table_stores = insert name t m.table_stores }, true)
  Adds-insert m name db t =
      (refl, λ f. absurd cc, λ other e. find-insert other name t m.table_stores ∙ rw e refl)

  add_event-Adds :
      (now later last : ℕ) (m : M) (event name : Text)
      → IfSome (Adds m name) (add_event numbers json items sql now later last m event name)
  unfolding add_event
  add_event-Adds now later last m event name =
      IfSome-choice _ (find name m.table_stores) _ _ (Adds-same m name) (λ store.
        IfSome-choice _ (json.parse event) _ _ (Adds-same m name)
          (λ j. search (IfSome-bind, IfSome-if, Adds-same, Adds-refused, Adds-insert)))

  -- An event that is refused, for its table, its text, its columns or by the database, leaves every
  -- table in memory as it was; one that is added changes no table but its own. The model inputs stay.
  pub add_event_lem :
      (now later last : ℕ) (m : M) (event name : Text)
      → IfSome
          (λ (m', added).
            (m'.model_inputs ≡ m.model_inputs)
            × (added ≡ false → m'.table_stores ≡ m.table_stores)
            × ((other : Text)
                → eq_text other name ≡ false
                → find other m'.table_stores ≡ find other m.table_stores))
          (add_event numbers json items sql now later last m event name)
  add_event_lem now later last m event name = add_event-Adds now later last m event name

  fill_ready :
      (now : ℕ) (m : M) (name : Text) (store : TableStore numbers)
      → store.is_ready_to_be_filled ≡ true
      → fill_in_memory numbers json items sql now m name store ≡ some (m, store, true)
  unfolding fill_in_memory
  fill_ready now m name store r = simp (fill_in_memory, r) refl

  -- A table that is being filled is not read from the database.
  create_ready-db :
      (now : ℕ) (m : M) (store : TableStore numbers) (t : Element) (identifier : Text)
      (info : PreProcessorInfo (numbers t).T)
      → find info.table_name m.table_stores ≡ some store
      → store.is_ready_to_be_filled ≡ true
      → IfSome
          (λ r. r.0.db ≡ m.db)
          (create_preprocessor numbers json items sql now m t identifier info)
  unfolding create_preprocessor
  create_ready-db now m store t identifier info f r = IfSome-if _ (not info.valid) _ _ refl (
      rw (f, fill_ready now m info.table_name store r)
        (IfSome-bind _ (TableStore.create_preprocessor numbers now store t identifier info) _
          (λ made. refl)))

  add_row-ready :
      (now : ℕ) (t : TableStore numbers) (r : TableRow)
      → t.is_ready_to_be_filled ≡ true
      → IfSome (λ t'. t'.is_ready_to_be_filled ≡ true) (add_row numbers now t r)
  unfolding add_row
  add_row-ready now t r h =
      IfSome-if _ (not t.is_ready_to_be_filled) _ _ h
        (IfSome-choice _ (row_values t.column_to_id r.row) _ _ h (λ row. search IfSome-bind))

  add_rows-ready :
      (now : ℕ) (t : TableStore numbers) (rows : List Fields)
      → t.is_ready_to_be_filled ≡ true
      → IfSome
          (λ t'. t'.is_ready_to_be_filled ≡ true)
          (add_rows_to_table_store numbers json items sql now t rows)
  unfolding add_rows_to_table_store
  add_rows-ready now t [] h = h
  add_rows-ready now t (fields ∷ rows) h =
      IfSome-bind _ (read_fields fields none []) _ (λ (timestamp, row).
        IfSome->>= (λ t'. t'.is_ready_to_be_filled ≡ true) _
          (elim timestamp [
            | none ↦ some t
            | some n ↦ add_row numbers now t (record { timestamp = n; row = row })
          ])
          _
          (IfSome-choice _ timestamp _ _ h
            (λ n. add_row-ready now t (record { timestamp = n; row = row }) h))
          (λ t' k. add_rows-ready now t' rows k))

  fill_failed :
      (now : ℕ) (m : M) (name : Text) (store : TableStore numbers)
      → store.is_ready_to_be_filled ≡ false
      → (sql.exec m.db (select_command name)).2 ≡ false
      → IfSome
          (λ (m', t', ok).
            (ok ≡ false)
            × (t'.is_ready_to_be_filled ≡ true)
            × (find name m'.table_stores ≡ some t'))
          (fill_in_memory numbers json items sql now m name store)
  unfolding fill_in_memory
  fill_failed now m name store r failed = IfSome-else _ store.is_ready_to_be_filled _ _ r (
      IfSome->>= (λ t'. t'.is_ready_to_be_filled ≡ true) _
        (add_rows_to_table_store numbers json items sql now (set_to_fill_in_memory numbers store)
          (sql.exec m.db (select_command name)).1)
        _
        (add_rows-ready now (set_to_fill_in_memory numbers store)
          (sql.exec m.db (select_command name)).1 refl)
        (λ t' k. (failed, k, find-insert_self name t' m.table_stores)))

  -- If the query that fills a table in memory fails, the preprocessor is refused, but the table
  -- counts as filled: the next call for the same table does not query the database.
  pub create_preprocessor_after_failure :
      (now later : ℕ) (m : M) (store : TableStore numbers) (t : Element) (identifier : Text)
      (info : PreProcessorInfo (numbers t).T)
      → info.valid ≡ true
      → find info.table_name m.table_stores ≡ some store
      → store.is_ready_to_be_filled ≡ false
      → (sql.exec m.db (select_command info.table_name)).2 ≡ false
      → IfSome
          (λ (m', made).
            (made ≡ false)
            × IfSome
                (λ (m'', made'). m''.db ≡ m'.db)
                (create_preprocessor numbers json items sql later m' t identifier info))
          (create_preprocessor numbers json items sql now m t identifier info)
  unfolding create_preprocessor
  create_preprocessor_after_failure now later m store t identifier info v f r failed =
      IfSome-else _ (not info.valid) _ _ (ap not v) (
        rw f (
          IfSome->>=
            (λ (m', t', ok).
              (ok ≡ false)
              × (t'.is_ready_to_be_filled ≡ true)
              × (find info.table_name m'.table_stores ≡ some t'))
            _ (fill_in_memory numbers json items sql now m info.table_name store) _
            (fill_failed now m info.table_name store r failed)
            (λ (m', t', ok) (o, k, g).
              rw o (refl, create_ready-db later m' t' t identifier info g k))))
