-- ===== src/UserEvents/TableStore/Tables.antt =====
-- Every preprocessor of a table keeps its feature vectors as long as the default one.
use nimble_sdk.Prelude.{
  ℕ, zero, suc, ◌+◌, not, List, [], ◌∷◌, ◌++◌, Text, get_elem?, set, length, IfSome, IfSome->>=,
  IfSome-bind, IfSome-if, IfSome-choice,
}
use nimble_sdk.UserEvents.Structs.{TableEvent, TableRow, PreProcessorInfo}
use nimble_sdk.UserEvents.Scalar.{Scalar}
use nimble_sdk.UserEvents.PreProcessor.Cells.{
  AreCells, new_preprocessor-AreCells, add_event-AreCells,
}
use nimble_sdk.UserEvents.TableStore.{
  Element, AnyPreProcessor, preprocessor, TableStore, group_of_event, add_to, feed_preprocessors,
  add_row, row_values, replay_events, group_ids_of, column_ids_of, create_preprocessor, push_group,
}

module _ (numbers : Element → Scalar) where
  abbrev pub CellsOf : AnyPreProcessor numbers → Type 0
  CellsOf (preprocessor t p) = AreCells p

  -- The vectors of each preprocessor are as long as its default.
  abbrev pub AllCells : List (AnyPreProcessor numbers) → Type 0
  AllCells [] = Unit
  AllCells (p ∷ ps) = CellsOf p × AllCells ps

  AllCells-append :
      (ps : List (AnyPreProcessor numbers)) (p : AnyPreProcessor numbers)
      → AllCells ps
      → CellsOf p
      → AllCells (ps ++ p ∷ [])
  AllCells-append [] p h k = (k, tt)
  AllCells-append (q ∷ ps) p (h, hs) k = (h, AllCells-append ps p hs k)

  pub AllCells-set :
      (ps : List (AnyPreProcessor numbers)) (i : ℕ) (p : AnyPreProcessor numbers)
      → AllCells ps
      → CellsOf p
      → AllCells (set ps i p)
  AllCells-set [] i p h k = tt
  AllCells-set (q ∷ ps) zero p (h, hs) k = (k, hs)
  AllCells-set (q ∷ ps) (suc i) p (h, hs) k = (h, AllCells-set ps i p hs k)

  pub AllCells-get :
      (ps : List (AnyPreProcessor numbers)) (i : ℕ) → AllCells ps → IfSome CellsOf (get_elem? ps i)
  AllCells-get [] i h = tt
  AllCells-get (q ∷ ps) zero (h, hs) = h
  AllCells-get (q ∷ ps) (suc i) (h, hs) = AllCells-get ps i hs

  abbrev Fed : Type 0
  Fed = List (AnyPreProcessor numbers) × List TableEvent

  add_to-CellsOf :
      (now : ℕ) (p : AnyPreProcessor numbers) (all_events : List TableEvent) (i : ℕ)
      → CellsOf p
      → IfSome CellsOf (add_to numbers now p all_events i)
  add_to-CellsOf now (preprocessor t p) all_events i h =
      IfSome->>= AreCells CellsOf _ _ (add_event-AreCells (numbers t) now p all_events i h)
        (λ p' k. k)

  feed_preprocessors-AllCells :
      (now : ℕ) (e : TableEvent) (i : ℕ) (ps : List (AnyPreProcessor numbers))
      (all_events : List TableEvent)
      → AllCells ps
      → IfSome (λ (r : Fed). AllCells r.0) (feed_preprocessors numbers now e i ps all_events)
  unfolding feed_preprocessors
  feed_preprocessors-AllCells now e i [] all_events h = tt
  feed_preprocessors-AllCells now e i (p ∷ ps) all_events (h, hs) =
      IfSome-bind _ (group_of_event numbers p e) _ (λ group.
        let events = push_group all_events i group in
        IfSome->>= CellsOf _ _ _ (add_to-CellsOf now p events i h) (λ p' k.
          IfSome->>= (λ (r : Fed). AllCells r.0) _ _ _
            (feed_preprocessors-AllCells now e i ps events hs) (λ r ks. (k, ks))))

  abbrev pub IsTable : TableStore numbers → Type 0
  IsTable t = AllCells t.preprocessors

  pub add_row-IsTable :
      (now : ℕ) (t : TableStore numbers) (r : TableRow)
      → IsTable t
      → IfSome IsTable (add_row numbers now t r)
  unfolding add_row
  add_row-IsTable now t r h = IfSome-if _ (not t.is_ready_to_be_filled) _ _ h (
      IfSome-choice _ (row_values t.column_to_id r.row) _ _ h (λ row.
        IfSome->>= (λ (r : Fed). AllCells r.0) _ _ _
          (feed_preprocessors-AllCells now _ (length t.all_events) t.preprocessors _ h) (λ r k. k)))

  replay_events-CellsOf :
      (now : ℕ) (p : AnyPreProcessor numbers) (all_events : List TableEvent) (n i : ℕ)
      → CellsOf p
      → IfSome (λ r. CellsOf r.0) (replay_events numbers now p all_events n i)
  unfolding replay_events
  replay_events-CellsOf now p all_events zero i h = h
  replay_events-CellsOf now p all_events (suc n) i h =
      IfSome-bind _ (get_elem? all_events i) _ (λ e.
        IfSome-bind _ (group_of_event numbers p e) _ (λ group.
          let events = push_group all_events i group in
          IfSome->>= CellsOf _ _ _ (add_to-CellsOf now p events i h)
            (λ p' k. replay_events-CellsOf now p' events n (i + 1) k)))

  pub create_preprocessor-IsTable :
      (now : ℕ) (t : TableStore numbers) (element : Element) (identifier : Text)
      (info : PreProcessorInfo (numbers element).T)
      → IsTable t
      → IfSome (λ r. IsTable r.0) (create_preprocessor numbers now t element identifier info)
  unfolding create_preprocessor
  create_preprocessor-IsTable now t element identifier info h =
      IfSome-choice _ (group_ids_of t.column_to_id info.group_columns) _ _ h (λ group_ids.
        IfSome-bind _ (column_ids_of numbers t info.aggregate_operators info.columns_to_aggregate 0)
          _
          (λ ids. IfSome-choice _ ids _ _ h (λ column_ids.
            IfSome->>= AreCells _ _ _
              (new_preprocessor-AreCells (length t.preprocessors) info group_ids column_ids)
              (λ p k.
                IfSome->>= (λ r. CellsOf r.0) _ _ _
                  (replay_events-CellsOf now (preprocessor element p) t.all_events
                    (length t.all_events) 0 k)
                  (λ (p', events) k'. AllCells-append t.preprocessors p' h k')))))
