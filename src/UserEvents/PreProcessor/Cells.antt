-- ===== src/UserEvents/PreProcessor/Cells.antt =====
-- Every feature vector of a preprocessor is as long as the default one, and its model inputs as they
-- say.
use nimble_sdk.Prelude.{
  ℕ, ◌*◌, ◌≡◌, ◌∙◌, refl, Option, none, some, List, [], ◌∷◌, Text, get_elem?, length, length-append,
  arith, inl, inr, Option-cases, IfSome, IfSome->>=, IfSome-bind, IfSome-if,
}
use nimble_sdk.Prelude.Map.{Map, find}
use nimble_sdk.UserEvents.Structs.{TableEvent, PreProcessorInfo, ModelInput}
use nimble_sdk.UserEvents.Scalar.{Scalar}
use nimble_sdk.UserEvents.Window.{Window}
use nimble_sdk.UserEvents.Window.Cells.{
  AllLong, AllLong-insert, update_window-AllLong, add_event-AllLong,
}
use nimble_sdk.UserEvents.PreProcessor
use nimble_sdk.UserEvents.PreProcessor.{
  PreProcessor, new_preprocessor, fill_default, copy_features, update_windows, get_model_input,
  create_in_windows, add_to_windows, ensure_group, add_event,
}

-- Every vector of a preprocessor has a cell for each cell of the default one.
abbrev pub AreCells : {T : Type 0} → PreProcessor T → Type 0
AreCells p = AllLong (length p.default_feature) p.features

pub new_preprocessor-AreCells :
    {T : Type 0} (id : ℕ) (info : PreProcessorInfo T) (group_ids column_ids : List ℕ)
    → IfSome AreCells (new_preprocessor id info group_ids column_ids)
unfolding new_preprocessor find
new_preprocessor-AreCells id info group_ids column_ids =
    let columns = length info.columns_to_aggregate in
    IfSome-bind _
      (fill_default info.default_vector columns (length info.rolling_windows_in_secs * columns) 0) _
      (λ d. λ g v e. cc)

length-copy_features :
    {T : Type 0} (p : PreProcessor T) (groups : List Text)
    → AreCells p
    → length (copy_features p groups) ≡ length groups * length p.default_feature
unfolding copy_features
length-copy_features p [] h = omega arith
length-copy_features p (group ∷ groups) h =
    let rest = length-copy_features p groups h in
    elim (Option-cases (find group p.features)) [
      | inl nothing ↦
          simp (copy_features, nothing)
            (length-append p.default_feature (copy_features p groups) ∙ omega (arith, rest))
      | inr (v, e) ↦
          simp (copy_features, e)
            (length-append v (copy_features p groups) ∙ omega (arith, rest, h group v e))
    ]

module _ (s : Scalar) where
  open s use {T}

  update_windows-AllLong :
      (n now : ℕ) (ws : List (Window T)) (features : Map (List T)) (all_events : List TableEvent)
      → AllLong n features
      → IfSome (λ r. AllLong n r.1) (update_windows s now ws features all_events)
  unfolding update_windows
  update_windows-AllLong n now [] features all_events h = h
  update_windows-AllLong n now (w ∷ ws) features all_events h =
      IfSome->>= (λ r. AllLong n r.1) _ _ _ (update_window-AllLong s n now w features all_events h)
        (λ (w', features') k.
          IfSome->>= (λ r. AllLong n r.1) _ _ _
            (update_windows-AllLong n now ws features' all_events k) (λ r k'. k'))

  add_to_windows-AllLong :
      (n now : ℕ) (ws : List (Window T)) (features : Map (List T)) (all_events : List TableEvent)
      (i : ℕ)
      → AllLong n features
      → IfSome (λ r. AllLong n r.1) (add_to_windows s now ws features all_events i)
  unfolding add_to_windows
  add_to_windows-AllLong n now [] features all_events i h = h
  add_to_windows-AllLong n now (w ∷ ws) features all_events i h =
      IfSome->>= (λ r. AllLong n r.1) _ _ _ (add_event-AllLong s n now w features all_events i h)
        (λ (w', features') k.
          IfSome->>= (λ r. AllLong n r.1) _ _ _
            (add_to_windows-AllLong n now ws features' all_events i k) (λ r k'. k'))

  ensure_group-AreCells :
      (p : PreProcessor T) (group : Text) → AreCells p → IfSome AreCells (ensure_group s p group)
  unfolding ensure_group
  ensure_group-AreCells p group h = elim (Option-cases (find group p.features)) [
    | inr (v, e) ↦ simp (ensure_group, e) h
    | inl nothing ↦
        simp (ensure_group, nothing)
          (IfSome-bind AreCells
            (create_in_windows s (length p.info.columns_to_aggregate) p group p.default_feature
              p.rolling_windows 0)
            _
            (λ (windows, failed).
              AllLong-insert (length p.default_feature) p.features group p.default_feature h refl))
  ]

  pub add_event-AreCells :
      (now : ℕ) (p : PreProcessor T) (all_events : List TableEvent) (i : ℕ)
      → AreCells p
      → IfSome AreCells (PreProcessor.add_event s now p all_events i)
  unfolding add_event
  add_event-AreCells now p all_events i h = IfSome-bind _ (get_elem? all_events i) _ (λ e.
      IfSome-bind _ (get_elem? e.groups p.id) _ (λ group.
        IfSome->>= AreCells AreCells (ensure_group s p group) _ (ensure_group-AreCells p group h)
          (λ p' k.
            IfSome->>= (λ r. AllLong (length p'.default_feature) r.1) AreCells _ _
              (add_to_windows-AllLong (length p'.default_feature) now p'.rolling_windows p'.features
                all_events i k)
              (λ r k'. k'))))

  -- The vector is as long as it says, and has equally many cells for each of the groups.
  abbrev pub IsLong : ℕ → Option (ModelInput T) → Type 0
  IsLong groups none = Unit
  IsLong groups (some input) =
      (length input.values ≡ input.length) × (cells : ℕ) × (input.length ≡ groups * cells)

  pub get_model_input-AreCells :
      (now : ℕ) (p : PreProcessor T) (groups : List Text) (all_events : List TableEvent)
      → AreCells p
      → IfSome
          (λ (p', input). AreCells p' × IsLong (length groups) input)
          (get_model_input s now p groups all_events)
  unfolding get_model_input
  get_model_input-AreCells now p groups all_events h =
      IfSome-if _ p.is_useless _ _ (h, tt)
        (IfSome->>= (λ r. AllLong (length p.default_feature) r.1) _ _ _
          (update_windows-AllLong (length p.default_feature) now p.rolling_windows p.features
            all_events h)
          (λ (windows, features) k.
            let p' = record p { rolling_windows = windows; features = features } in
            (k, (length-copy_features p' groups k, length p.default_feature, refl))))
