-- ===== src/CommandCenter/Runs.antt =====
-- The command center over any sequence of calls and rounds.
use nimble_sdk.Prelude.{
  ℕ, ◌+◌, ◌≡◌, ◌∙◌, refl, Bool, true, false, not, Option, none, some, List, [], ◌∷◌, Text, codes,
  if◌then◌else◌, ◌>>=◌, IfSome, IfSome->>=, IfSome-bind, IfSome-found, IfSome-if, IfSome-cases,
  IfSome-some, Option-cases, inl, inr,
}
use nimble_sdk.Prelude.Map.{Map, insert, is_some}
use nimble_sdk.Prelude.Int.{ℤ, eq_ℤ}
use nimble_sdk.Status.{success, terminal_error}
use nimble_sdk.Json.{Json}
use nimble_sdk.Config.{Config}
use nimble_sdk.Server.{Network, init}
use nimble_sdk.Logger.{Moment, Entry, write_log}
use nimble_sdk.Executor.Structs.{ElementTypes, TensorInfo, ModelInfo, InputBytes}
use nimble_sdk.Executor.Model.{Row, UserInput}
use nimble_sdk.Executor.Manager.{get_inference_of}
use nimble_sdk.CommandCenter.{CommandCenter, log_metric, set_cloud_config}
use nimble_sdk.CommandCenter.Start.{initialize}
use nimble_sdk.CommandCenter.Calls.{
  get_inference, exit_inference, internet_switched_on, write_outside_log, write_metric,
  add_user_event, get_model_status, get_inputs_for_infer_id,
}
use nimble_sdk.CommandCenter.Round.{
  configured, background_round, update_resources, send_all, get_metrics,
}
use nimble_sdk.CommandCenter.Guards.{
  Holds, exit_inference-Holds, internet_switched_on-Holds, set_cloud_config-Holds,
  get_metrics-Holds, initialize-Holds, update_resources-Holds,
}

module _ (json : Json) (network : Network) (e : ElementTypes) (parse : Text → Option ModelInfo)
    (session : Text → Bool) {U : Type 0}
    (create_preprocessor : U → Text → TensorInfo → Option (U × Bool))
    (new_events : List json.J → Bool → Option U) (add_event : U → Text → Text → Option (U × Bool))
    (model_input : U → Text → List Row → Option (U × Option InputBytes))
    (run : List (List ℕ) → Option (List (List ℕ))) (platform : Text)
    (readdir : Map Text → List Entry) where
  -- What may happen to the command center. `start` is a call of initialize.
  pub data Call : Type 0 where
    start : ℕ → Moment → Bool → Config json → Call
    infer : ℕ → Moment → Text → List UserInput → Text → Call
    leave : Moment → Text → Text → Bool → Call
    online : Call
    log : Moment → Text → Call
    metric : Moment → Text → Text → Call
    event : Text → Text → Call
    round : ℕ → Moment → ℤ → Option Text → Bool → Call

  unfoldable pub call : Call → CommandCenter json U → Option (CommandCenter json U)
  call (start now m has_directory config) c = do
    (c', result) ←
        initialize json network e parse session create_preprocessor new_events now m has_directory
          config c
    some c'
  call (infer started m model_id req infer_id) c = do
    (c', outputs, status) ← get_inference json e model_input run started m model_id req infer_id c
    some c'
  call (leave m model_id infer_id ok) c = exit_inference json m model_id infer_id ok c
  call online c = internet_switched_on json c
  call (log m text) c = some (write_outside_log json m text c)
  call (metric m type text) c = some (write_metric json m type text c)
  call (event text table) c = do (c', added) ← add_user_event json add_event text table c; some c'
  call (round now m ping metrics init_complete) c =
      background_round json network e parse session create_preprocessor platform readdir now m ping
        metrics init_complete c

  unfoldable pub calls : List Call → CommandCenter json U → Option (CommandCenter json U)
  unfolding call
  calls [] c = some c
  calls (x ∷ xs) c = do c' ← call x c; calls xs c'

  -- What every call keeps.
  module _ (P : Bool → Bool → Config json → Type 0)
      (opens : (b : Bool) (k k' : Config json) → P b false k → P b false k' × P true true k') where
    Holds-if :
        (b : Bool) (c c' : CommandCenter json U)
        → Holds json P c
        → Holds json P c'
        → Holds json P (if b then c else c')
    Holds-if true c c' h k = h
    Holds-if false c c' h k = k

    write_outside_log-Holds :
        (m : Moment) (text : Text) (c : CommandCenter json U)
        → Holds json P c
        → Holds json P (write_outside_log json m text c)
    unfolding write_outside_log
    write_outside_log-Holds m text c h =
        Holds-if (not c.initialize_success) c
          (record c { metrics_agent = write_log m text (codes "OUTSIDE:::") c.metrics_agent }) h h

    write_metric-Holds :
        (m : Moment) (type text : Text) (c : CommandCenter json U)
        → Holds json P c
        → Holds json P (write_metric json m type text c)
    unfolding write_metric
    write_metric-Holds m type text c h =
        Holds-if (not c.initialize_success) c
          (record c { metrics_agent = log_metric m type text c.metrics_agent }) h h

    get_inference-Holds :
        (started : ℕ) (m : Moment) (model_id : Text) (req : List UserInput) (infer_id : Text)
        (c : CommandCenter json U)
        → Holds json P c
        → IfSome
            (λ r. Holds json P r.0)
            (get_inference json e model_input run started m model_id req infer_id c)
    unfolding get_inference
    get_inference-Holds started m model_id req infer_id c h =
        IfSome-cases _ (not c.initialize_success) _ _ (λ off. h)
          (λ on. IfSome-found _ c.parts _ (λ p there.
            let ready : P true c.initialize_success c.config = rw there at h in
            IfSome-bind _
              (get_inference_of e model_input run p.executor infer_id model_id p.features p.events
                req)
              _
              (λ (x, events, outputs, status). IfSome-if _ (eq_ℤ status success) _ _ ready (
                IfSome->>= (Holds json P) _
                  (exit_inference json m model_id infer_id false (record c {
                    inference_start_map = insert infer_id started c.inference_start_map;
                    inference_count = c.inference_count + 1;
                    parts = some (record p { executor = x; events = events });
                  }))
                  _ (exit_inference-Holds json P m model_id infer_id false _ ready) (λ c'' k. k)))))

    add_user_event-Holds :
        (text table : Text) (c : CommandCenter json U)
        → Holds json P c
        → IfSome (λ r. Holds json P r.0) (add_user_event json add_event text table c)
    unfolding add_user_event
    add_user_event-Holds text table c h =
        IfSome-cases _ (not c.initialize_success) _ _ (λ off. h)
          (λ on. IfSome-found _ c.parts _ (λ p there.
            let ready : P true c.initialize_success c.config = rw there at h in
            IfSome-bind _ (add_event p.events text table) _ (λ r. ready)))

    background_round-Holds :
        (now : ℕ) (m : Moment) (ping : ℤ) (metrics : Option Text) (init_complete : Bool)
        (c : CommandCenter json U)
        → Holds json P c
        → IfSome (Holds json P) (
            background_round json network e parse session create_preprocessor platform readdir now m
              ping metrics init_complete c)
    unfolding background_round send_all
    background_round-Holds now m ping metrics init_complete c h =
        let registered = record c {
          server = (init json network (configured json c.config c.server)).0;
        } in
        IfSome->>= (Holds json P) (Holds json P)
          (update_resources json network e parse session create_preprocessor now
            (set_cloud_config json network m ping registered))
          (λ c'. some (
            send_all json network platform readdir m init_complete (get_metrics json m metrics c')))
          (update_resources-Holds json P network e parse session create_preprocessor now
            (set_cloud_config json network m ping registered)
            (set_cloud_config-Holds json P network m ping registered h))
          (λ c' k. get_metrics-Holds json P m metrics c' k)

    call-Holds :
        (x : Call) (c : CommandCenter json U) → Holds json P c → IfSome (Holds json P) (call x c)
    unfolding call
    call-Holds (start now m has_directory config) c h =
        IfSome->>= (λ r. Holds json P r.0) _
          (initialize json network e parse session create_preprocessor new_events now m
            has_directory config c)
          _
          (initialize-Holds json P network e parse session create_preprocessor new_events now m
            has_directory config c opens h)
          (λ r k. k)
    call-Holds (infer started m model_id req infer_id) c h =
        IfSome->>= (λ r. Holds json P r.0) _
          (get_inference json e model_input run started m model_id req infer_id c) _
          (get_inference-Holds started m model_id req infer_id c h) (λ r k. k)
    call-Holds (leave m model_id infer_id ok) c h =
        exit_inference-Holds json P m model_id infer_id ok c h
    call-Holds online c h = internet_switched_on-Holds json P c h
    call-Holds (log m text) c h = write_outside_log-Holds m text c h
    call-Holds (metric m type text) c h = write_metric-Holds m type text c h
    call-Holds (event text table) c h =
        IfSome->>= (λ r. Holds json P r.0) _ (add_user_event json add_event text table c) _
          (add_user_event-Holds text table c h) (λ r k. k)
    call-Holds (round now m ping metrics init_complete) c h =
        background_round-Holds now m ping metrics init_complete c h

    calls-Holds :
        (xs : List Call) (c : CommandCenter json U)
        → Holds json P c
        → IfSome (Holds json P) (calls xs c)
    unfolding calls
    calls-Holds [] c h = h
    calls-Holds (x ∷ xs) c h =
        IfSome->>= (Holds json P) _ (call x c) _ (call-Holds x c h) (λ c' k. calls-Holds xs c' k)

  abbrev IsMatched : Bool → Bool → Config json → Type 0
  IsMatched parts ready config = parts ≡ ready

  abbrev IsOpened : Config json → Bool → Bool → Config json → Type 0
  IsOpened k parts ready config = (ready ≡ true) × (config ≡ k)

  -- Whatever a client calls and however often the background thread comes round, in any order, the
  -- members of the command center are there exactly when its initialisation has succeeded, if they
  -- were so before and no call faulted.
  pub calls_members :
      (xs : List Call) (c c' : CommandCenter json U)
      → is_some c.parts ≡ c.initialize_success
      → calls xs c ≡ some c'
      → is_some c'.parts ≡ c'.initialize_success
  calls_members xs c c' h ended =
      IfSome-some (Holds json IsMatched) (calls xs c) c' ended
        (calls-Holds IsMatched (λ b k k' g. (g, refl)) xs c h)

  -- An initialised command center stays so, with the configuration of its initialisation, whatever a
  -- client calls and however often the background thread comes round: another initialize does not
  -- change it.
  pub initialised_stays :
      (xs : List Call) (c c' : CommandCenter json U)
      → c.initialize_success ≡ true
      → calls xs c ≡ some c'
      → (c'.initialize_success ≡ true) × (c'.config ≡ c.config)
  initialised_stays xs c c' on ended =
      IfSome-some (Holds json (IsOpened c.config)) (calls xs c) c' ended
        (calls-Holds (IsOpened c.config) (λ b k k' g. cc) xs c (on, refl))

  -- As long as no initialisation has succeeded, whatever was called before, the calls for an
  -- inference, its end, an event, the status of a model and the internet report failure, or nothing,
  -- and leave everything as it was; but get_inputs_for_inferId faults: it goes through a member that
  -- is null.
  pub calls_before_initialize :
      (xs : List Call) (c c' : CommandCenter json U) (started : ℕ) (m : Moment)
      (model_id infer_id text table : Text) (req : List UserInput) (ok : Bool)
      → is_some c.parts ≡ c.initialize_success
      → calls xs c ≡ some c'
      → c'.initialize_success ≡ false
      → (get_inference json e model_input run started m model_id req infer_id c'
          ≡ some (c', [], terminal_error))
        × (exit_inference json m model_id infer_id ok c' ≡ some c')
        × (add_user_event json add_event text table c' ≡ some (c', false))
        × (get_model_status json model_id c' ≡ some none)
        × (internet_switched_on json c' ≡ some c')
        × (get_inputs_for_infer_id json e infer_id c' ≡ none)
  unfolding get_inputs_for_infer_id get_inference exit_inference add_user_event get_model_status
      internet_switched_on
  calls_before_initialize xs c c' started m model_id infer_id text table req ok h ended off =
      let none_there : is_some c'.parts ≡ false = calls_members xs c c' h ended ∙ off in
      (
        simp (get_inference, off) refl,
        simp (exit_inference, off) refl,
        simp (add_user_event, off) refl,
        simp (get_model_status, off) refl,
        simp (internet_switched_on, off) refl,
        elim (Option-cases c'.parts) [
          | inl nothing ↦ simp (get_inputs_for_infer_id, nothing) refl
          | inr (p, there) ↦ absurd (cc)
        ],
      )
