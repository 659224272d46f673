-- ===== src/Logger/Delivery.antt =====
-- What becomes of an entry that a logger has written.
use nimble_sdk.Prelude.{
  ◌<◌, ◌≡◌, refl, sym, ◌⊎◌, Bool, true, not, inl, inr, Bool-cases, Option-cases, some, List, [],
  ◌∷◌, Text, eq_text, eq_text_iff, length, ltb, ◌-◌, ◌/◌, ◌||◌,
}
use nimble_sdk.Prelude.Map.{Map, find}
use nimble_sdk.Prelude.Int.{ℤ, pos, eq_ℤ, leb_ℤ}
use nimble_sdk.Json.{Json}
use nimble_sdk.Server.{Server, Network, Request}
use nimble_sdk.Server.Logs.{log_request, upload_logs}
use nimble_sdk.Logger.{
  Logger, LoggingConfig, Moment, Entry, pending_name, put_aside, content_of, entry, write_log,
  update_log_config,
}
use nimble_sdk.Logger.Upload.{
  get_lines, log_request_body, send_logs, send_file, send_pending_logs, get_new_file_to_send_log,
}
use nimble_sdk.Logger.Files.{
  Occurs, Occurs-lines, join_lines, Held, Held-put_aside, content_of-found,
}
use nimble_sdk.Logger.Kept.{
  IsFresh, write_log-keeps, write_log-holds, remove_file-keeps, entry-positive, not_in_nothing,
}

module _ (json : Json) (network : Network) (platform : Text) where
  -- The request r, sent after those before it, holds an entry and is accepted.
  abbrev pub Uploads : List Request → Request → Text → Type 0
  Uploads before r e =
      (c : LoggingConfig) × (lines : List Text) × (r
        ≡ log_request json (log_request_body json platform c lines))
      × (eq_ℤ (network before r).status_code (pos 202) ≡ true)
      × Occurs e (join_lines lines)

  abbrev pub Accepted : List Request → Text → Type 0
  Accepted [] e = ⊥
  Accepted (r ∷ before) e = Uploads before r e ⊎ Accepted before e

  -- An entry stands in a file, or in a request that was accepted.
  abbrev pub IsSafe : Server → Logger → Text → Type 0
  IsSafe s l e = Held e l.files ⊎ Accepted s.sent e

  send_logs-IsSafe :
      (e : Text) (m : Moment) (lines : List Text) (name : Text) (s : Server) (l : Logger)
      → 0 < length e
      → ((n content : Text)
          → eq_text n name ≡ true
          → find n l.files ≡ some content
          → Occurs e content
          → Occurs e (join_lines lines))
      → IsSafe s l e
      → IsSafe
          (send_logs json network platform m lines name s l).0
          (send_logs json network platform m lines name s l).1
          e
  unfolding send_logs join_lines
  send_logs-IsSafe e m [] name s l p read (inr sent) = inr sent
  send_logs-IsSafe e m [] name s l p read (inl (n, content, f, h)) =
      elim (Bool-cases (eq_text n name)) [
        | inl same ↦ let (a, b, k) = read n content same f h in absurd (not_in_nothing e a b p k)
        | inr other ↦ inl (remove_file-keeps e name m l n content other f h)
      ]
  send_logs-IsSafe e m (log ∷ logs) name s l p read safe =
      let r = log_request json (log_request_body json platform l.log_config (log ∷ logs)) in
      elim (Bool-cases (eq_ℤ (network s.sent r).status_code (pos 202))) [
        | inl ok ↦
            simp (send_logs, upload_logs, ok)
              (elim safe [
                | inr sent ↦ inr (inr sent)
                | inl (n, content, f, h) ↦ elim (Bool-cases (eq_text n name)) [
                  | inl same ↦
                      inr (inl (l.log_config, log ∷ logs, refl, refl, read n content same f h))
                  | inr other ↦ inl (remove_file-keeps e name m l n content other f h)
                ]
              ])
        | inr refused ↦
            simp (send_logs, upload_logs, refused)
              (elim safe [ inr sent ↦ inr (inr sent) | inl held ↦ inl held ])
      ]

  send_file-IsSafe :
      (e : Text) (m : Moment) (name : Text) (s : Server) (l : Logger)
      → 0 < length e
      → m.readable ≡ true
      → IsSafe s l e
      → IsSafe
          (send_file json network platform m name s l).0
          (send_file json network platform m name s l).1
          e
  unfolding send_file
  send_file-IsSafe e m name s l p readable safe = rw readable (
      send_logs-IsSafe e m (get_lines (content_of name l.files) []) name s l p
        (λ n content same f h.
          let g : find name l.files ≡ some content = rw (sym ((eq_text_iff n name).0 same)) f in
          rw (content_of-found name l.files g) (Occurs-lines e content h))
        safe)

  module _ (readdir : Map Text → List Entry) where
    send_pending_logs-IsSafe :
        (e : Text) (m : Moment) (init_complete : Bool) (s : Server) (l : Logger)
        → 0 < length e
        → IsFresh m l
        → m.readable ≡ true
        → IsSafe s l e
        → IsSafe
            (send_pending_logs json network platform readdir m init_complete s l).0
            (send_pending_logs json network platform readdir m init_complete s l).1
            e
    unfolding send_pending_logs
    send_pending_logs-IsSafe e m init_complete s l p free readable safe =
        let aside : IsSafe s (put_aside m l) e = elim safe [
          | inl held ↦ inl (Held-put_aside e m l free held)
          | inr sent ↦ inr sent
        ] in
        elim (Bool-cases (leb_ℤ (pos ((m.now - l.last_log_time) / 1000000)) l.timer_interval)) [
          | inl early ↦ simp (send_pending_logs, early) safe
          | inr due ↦ elim (Option-cases (get_new_file_to_send_log (readdir l.files))) [
            | inr (name, g) ↦
                simp (send_pending_logs, due, g) (send_file-IsSafe e m name s l p readable safe)
            | inl nothing ↦ elim (Bool-cases l.is_open) [
              | inr shut ↦ simp (send_pending_logs, due, nothing, shut) safe
              | inl opened ↦ elim (Bool-cases (not init_complete || ltb 1000 l.position)) [
                | inl t ↦
                    simp (send_pending_logs, due, nothing, opened, t)
                      (send_file-IsSafe e m (pending_name m.file_date) s (put_aside m l) p readable
                        aside)
                | inr t ↦ simp (send_pending_logs, due, nothing, opened, t) safe
              ]
            ]
          ]
        ]

    -- What is done with a logger.
    pub data Call : Type 0 where
      log : Moment → Text → Text → Call
      send : Moment → Bool → Call
      configure : Text → ℤ → Text → Call

    unfoldable pub call : Call → Server × Logger → Server × Logger
    call (log m message type) (s, l) = (s, write_log m message type l)
    call (send m init_complete) (s, l) =
        send_pending_logs json network platform readdir m init_complete s l
    call (configure key interval url) (s, l) = (s, update_log_config key interval url l)

    unfoldable pub calls : List Call → Server × Logger → Server × Logger
    unfolding call
    calls [] x = x
    calls (c ∷ cs) x = calls cs (call c x)

    -- No call puts a file aside under the name of another, and a file to be sent can be read.
    abbrev pub IsFreshFor : Call → Logger → Type 0
    IsFreshFor (log m message type) l = IsFresh m l
    IsFreshFor (send m init_complete) l = IsFresh m l × (m.readable ≡ true)
    IsFreshFor (configure key interval url) l = Unit

    abbrev pub AllFresh : List Call → Server × Logger → Type 0
    AllFresh [] x = Unit
    AllFresh (c ∷ cs) x = IsFreshFor c x.1 × AllFresh cs (call c x)

    call-IsSafe :
        (e : Text) (c : Call) (x : Server × Logger)
        → 0 < length e
        → IsFreshFor c x.1
        → IsSafe x.0 x.1 e
        → IsSafe (call c x).0 (call c x).1 e
    unfolding call update_log_config
    call-IsSafe e (log m message type) (s, l) p free (inl held) =
        inl (write_log-keeps e m message type l free held)
    call-IsSafe e (log m message type) (s, l) p free (inr sent) = inr sent
    call-IsSafe e (send m init_complete) (s, l) p free safe =
        send_pending_logs-IsSafe e m init_complete s l p free.0 free.1 safe
    call-IsSafe e (configure key interval url) (s, l) p free safe = safe

    calls-IsSafe :
        (e : Text) (cs : List Call) (x : Server × Logger)
        → 0 < length e
        → AllFresh cs x
        → IsSafe x.0 x.1 e
        → IsSafe (calls cs x).0 (calls cs x).1 e
    unfolding calls
    calls-IsSafe e [] x p fresh safe = safe
    calls-IsSafe e (c ∷ cs) x p fresh safe =
        calls-IsSafe e cs (call c x) p fresh.1 (call-IsSafe e c x p fresh.0 safe)

    -- What a logger with an open file has written is never lost, if no file is put aside under the name
    -- of another and every file that is to be sent can be opened for reading: whatever is written and
    -- sent after it, in any order, whatever the server answers and whether or not files can be renamed,
    -- opened for writing and removed, the entry stands in a file of the directory or in the lines of a
    -- request that the server accepted.
    pub logged_stays :
        (m : Moment) (message type : Text) (cs : List Call) (s : Server) (l : Logger)
        → l.is_open ≡ true
        → AllFresh (log m message type ∷ cs) (s, l)
        → IsSafe
            (calls (log m message type ∷ cs) (s, l)).0
            (calls (log m message type ∷ cs) (s, l)).1
            (entry m type message)
    unfolding calls
    logged_stays m message type cs s l opened fresh =
        calls-IsSafe (entry m type message) cs (call (log m message type) (s, l))
          (entry-positive m type message) fresh.1
          (inl (write_log-holds m message type l opened fresh.0))
