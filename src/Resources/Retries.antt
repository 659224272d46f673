-- ===== src/Resources/Retries.antt =====
-- How often the models are loaded from the server.
use nimble_sdk.Prelude.{
  ℕ, zero, suc, ◌+◌, ◌≤◌, ◌≡◌, ◌∙◌, refl, ap, subst, Bool, true, false, inl, inr, ◌⊎◌, Bool-cases,
  Option, none, some, Text, [], if◌then◌else◌, arith, ◌>>=◌, IfSome, IfSome->>=, eq_text,
  Option-cases, length, ltb,
}
use nimble_sdk.Prelude.Map.{Map, find}
use nimble_sdk.Prelude.Int.{ℤ, pos, negsuc, eq_ℤ}
use nimble_sdk.Json.{Json}
use nimble_sdk.Status.{success}
use nimble_sdk.Server.{Network, version_check, default_auth_error_retries}
use nimble_sdk.Executor.Structs.{ElementTypes, TensorInfo, ModelInfo, PlanData}
use nimble_sdk.Executor.Model.Session.{new_model}
use nimble_sdk.Executor.Manager.{
  OnnxExecutor, get_plan_version, plan_updated, can_model_retry, update_model_retries, load_plan,
}
use nimble_sdk.Executor.Manager.Retries.{
  retries_of, allowance, can_model_retry-retries, update_model_retries-retries,
}
use nimble_sdk.Resources.{
  Resources, download_parts, load_plan_from_server, install_plan, update_plan_if_required,
}

plan_updated-retries :
    (x : OnnxExecutor) (model_id : Text) (flag : Bool)
    → (plan_updated x model_id flag).load_model_retries ≡ x.load_model_retries
unfolding plan_updated
plan_updated-retries x model_id flag = elim (Option-cases (find model_id x.is_model_updated)) [
  | inl n ↦ rw (plan_updated, n) refl
  | inr (f, n) ↦ rw (plan_updated, n) refl
]

retries_of-same :
    (x y : OnnxExecutor) (model_id : Text)
    → x.load_model_retries ≡ y.load_model_retries
    → retries_of x model_id ≡ retries_of y model_id
unfolding retries_of
retries_of-same x y model_id same =
    ap (λ (m : Map ℤ). elim (find model_id m) [ none ↦ 0 | some n ↦ allowance n ]) same

ℤ-cases : (z : ℤ) → ((n : ℕ) × (z ≡ pos n)) ⊎ ((n : ℕ) × (z ≡ negsuc n))
ℤ-cases (pos n) = inl (n, refl)
ℤ-cases (negsuc n) = inr (n, refl)

module _ (e : ElementTypes) {U : Type 0} (parse : Text → Option ModelInfo) (session : Text → Bool)
    (create_preprocessor : U → Text → TensorInfo → Option (U × Bool)) where
  load_plan-retries :
      (x : OnnxExecutor) (model_id : Text) (d : PlanData) (events : U)
      → IfSome
          (λ r. r.0.load_model_retries ≡ x.load_model_retries)
          (load_plan e parse session create_preprocessor x model_id d events)
  unfolding load_plan
  load_plan-retries x model_id d events = elim (Option-cases (parse d.extra_fields)) [
    | inl n ↦ rw (load_plan, n) refl
    | inr (info, n) ↦
        let made =
          new_model e create_preprocessor (session d.plan) info d.version model_id events in
        elim (Option-cases made) [
          | inl m ↦ rw (load_plan, n, m) tt
          | inr ((events', none), m) ↦ rw (load_plan, n, m) refl
          | inr ((events', some model), m) ↦ rw (load_plan, n, m) refl
        ]
  ]

  module _ (json : Json) (network : Network) where
    abbrev from_server : Resources U → Text → Option (Resources U × ℤ)
    from_server = load_plan_from_server json network e parse session create_preprocessor

    -- What a load from the server leaves of the counters.
    abbrev KeepsRetries : Resources U → Resources U × ℤ → Type 0
    KeepsRetries r r' = r'.0.executor.load_model_retries ≡ r.executor.load_model_retries

    install_plan-retries :
        (r : Resources U) (model_id : Text) (d : PlanData)
        → IfSome
            (KeepsRetries r)
            (install_plan json network e parse session create_preprocessor r model_id d)
    unfolding install_plan
    install_plan-retries r model_id d =
        let load = load_plan e parse session create_preprocessor r.executor model_id d r.events in
        let keeps : OnnxExecutor × U × Bool → Type 0 =
          λ l. l.0.load_model_retries ≡ r.executor.load_model_retries in
        let kept = load_plan-retries r.executor model_id d r.events in
        elim (Option-cases load) [
          | inl m ↦ rw (install_plan, m) tt
          | inr ((x, events, loaded), m) ↦
              rw (install_plan, m)
                (plan_updated-retries x model_id loaded ∙ subst (IfSome keeps) m kept)
        ]

    load_plan_from_server-retries :
        (r : Resources U) (model_id : Text) → IfSome (KeepsRetries r) (from_server r model_id)
    unfolding load_plan_from_server
    load_plan_from_server-retries r model_id =
        let (s, v) = version_check json network default_auth_error_retries model_id r.server in
        let note = plan_updated-retries r.executor model_id in
        elim (Bool-cases (eq_ℤ v.status success)) [
          | inr a ↦ rw (load_plan_from_server, a) refl
          | inl a ↦ elim (Bool-cases (eq_text (get_plan_version r.executor model_id) v.version)) [
            | inl b ↦ rw (load_plan_from_server, a, b) (note true)
            | inr b ↦ elim (ℤ-cases v.file_parts) [
              | inr (n, c) ↦ rw (load_plan_from_server, a, b, c) tt
              | inl (n, c) ↦
                  let (s', plan, status) =
                    download_parts json network n 1 model_id v.version [] s in
                  elim (Bool-cases (eq_ℤ status success)) [
                    | inr d ↦ rw (load_plan_from_server, a, b, c, d) (note false)
                    | inl d ↦
                        rw (load_plan_from_server, a, b, c, d)
                          (install_plan-retries (record r { server = s' }) model_id _)
                  ]
            ]
          ]
        ]

    -- n rounds of the command center over one model, with the number of those rounds that send the
    -- server a request: a load from the server sends at least one.
    abbrev pub update_rounds : ℕ → Text → Resources U → Option (Resources U × ℕ)
    update_rounds zero model_id r = some (r, 0)
    update_rounds (suc n) model_id r = do
      r' ← update_plan_if_required json network e parse session create_preprocessor r model_id
      let loads = if ltb (length r.server.sent) (length r'.server.sent) then 1 else 0
      (r'', more) ← update_rounds n model_id r'
      some (r'', loads + more)

    -- A round pays for its requests.
    Pays : Text → Resources U → Resources U → Type 0
    Pays model_id r r' =
        (if ltb (length r.server.sent) (length r'.server.sent) then 1 else 0)
          + retries_of r'.executor model_id
        ≤ retries_of r.executor model_id

    one_at_most : (b : Bool) (m n : ℕ) → 1 + m ≤ n → (if b then 1 else 0) + m ≤ n
    one_at_most true m n h = h
    one_at_most false m n h = omega (arith, h)

    update_plan-Pays :
        (r : Resources U) (model_id : Text)
        → IfSome
            (Pays model_id r)
            (update_plan_if_required json network e parse session create_preprocessor r model_id)
    unfolding update_plan_if_required Pays
    update_plan-Pays r model_id =
        let (x, retry) = can_model_retry r.executor model_id in
        let asked = record r { executor = x } in
        let (same, positive) = can_model_retry-retries r.executor model_id in
        let allowed = retries_of-same x r.executor model_id same in
        let kept = load_plan_from_server-retries asked model_id in
        elim (Bool-cases retry) [
          | inr b ↦
              let none_sent : ltb (length r.server.sent) (length r.server.sent) ≡ false =
                ground arith in
              let free : Pays model_id r asked = rw (Pays, none_sent) (omega (arith, allowed)) in
              rw (update_plan_if_required, b) free
          | inl b ↦ elim (Option-cases (from_server asked model_id)) [
            | inl m ↦ rw (update_plan_if_required, b, m) tt
            | inr ((r', status), m) ↦
                let kept' = subst (IfSome (KeepsRetries asked)) m kept in
                let allowed' = retries_of-same r'.executor x model_id kept' in
                let counted = update_model_retries-retries r'.executor model_id in
                let paid : 1 + retries_of (update_model_retries r'.executor model_id) model_id
                    ≤ retries_of r.executor model_id =
                  elim counted [
                    | inl c ↦ omega (arith, c, allowed, allowed')
                    | inr c ↦ omega (arith, c, allowed, allowed', positive b)
                  ] in
                let counted_down = record r' {
                  executor = update_model_retries r'.executor model_id;
                } in
                let pays : Pays model_id r counted_down = one_at_most _ _ _ paid in
                rw (update_plan_if_required, b, m) pays
          ]
        ]

    -- However often the command center asks, no more of its rounds send the server requests for a
    -- model than the model's counter allows, and every such round is taken from the counter.
    pub update_rounds-bounded :
        (n : ℕ) (model_id : Text) (r : Resources U)
        → IfSome
            (λ (r', loads).
              loads + retries_of r'.executor model_id ≤ retries_of r.executor model_id)
            (update_rounds n model_id r)
    unfolding Pays
    update_rounds-bounded zero model_id r = omega arith
    update_rounds-bounded (suc n) model_id r =
        IfSome->>= (Pays model_id r) _
          (update_plan_if_required json network e parse session create_preprocessor r model_id) _
          (update_plan-Pays r model_id)
          (λ r' paid.
            IfSome->>= _ _ (update_rounds n model_id r') _ (update_rounds-bounded n model_id r')
              (λ (r'', more) rest. omega (arith, paid, rest)))
