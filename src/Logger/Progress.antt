-- ===== src/Logger/Progress.antt =====
-- How soon the files of a logger that wait to be sent are sent.
use nimble_sdk.Prelude.{
  if◌then◌else◌, ◌-◌, ◌/◌, ◌≤◌, ◌≡◌, refl, inl, inr, ◌↔◌, Bool, true, false, not, ◌||◌, Bool-cases,
  Option-cases, List, [], ◌∷◌, Text, length, ltb, arith,
}
use nimble_sdk.Prelude.Map.{Map, erase, contains}
use nimble_sdk.Prelude.Int.{pos, leb_ℤ}
use nimble_sdk.Json.{Json}
use nimble_sdk.Server.{Server, Network, Request}
use nimble_sdk.Server.Logs.{log_request, upload_logs}
use nimble_sdk.Logger.{Logger, Moment, Entry, pending_name, put_aside, content_of}
use nimble_sdk.Logger.Upload.{
  get_lines, log_request_body, send_logs, send_file, send_pending_logs, remove_file,
  get_new_file_to_send_log,
}
use nimble_sdk.Logger.Pending.{
  pending_count, pending_count-erase, pending_count-none, put_aside-erase, Listed, new_file-Listed,
  no_new_file-Listed,
}

-- The time that send_pending_logs waits for has passed.
abbrev pub IsDue : Moment → Logger → Type 0
IsDue m l = leb_ℤ (pos ((m.now - l.last_log_time) / 1000000)) l.timer_interval ≡ false

module _ (json : Json) (network : Network) (platform : Text) (readdir : Map Text → List Entry) where
  -- The calls of send_pending_logs in the rounds of the background thread; only the first round's
  -- call has a false `initComplete`.
  unfoldable pub send_rounds : List Moment → Bool → Server × Logger → Server × Logger
  send_rounds [] init_complete x = x
  send_rounds (m ∷ ms) init_complete (s, l) =
      send_rounds ms true (send_pending_logs json network platform readdir m init_complete s l)

  -- Every round is due, and can remove files.
  abbrev pub AllDue : List Moment → Bool → Server × Logger → Type 0
  AllDue [] init_complete x = Unit
  AllDue (m ∷ ms) init_complete (s, l) =
      IsDue m l
      × (m.removed ≡ true)
      × AllDue ms true (send_pending_logs json network platform readdir m init_complete s l)

  module _
      (accepts : (before : List Request) (r : Request) → (network before r).status_code ≡ pos 202)
      (lists : (files : Map Text) (name : Text)
        → (contains name files ≡ true) ↔ Listed name (readdir files)) where
    send_logs-files :
        (m : Moment) (lines : List Text) (name : Text) (s : Server) (l : Logger)
        → m.removed ≡ true
        → (send_logs json network platform m lines name s l).1.files ≡ erase name l.files
    unfolding send_logs remove_file
    send_logs-files m [] name s l r = simp (remove_file, r) refl
    send_logs-files m (log ∷ logs) name s l r =
        let a =
          accepts s.sent
            (log_request json (log_request_body json platform l.log_config (log ∷ logs))) in
        simp (send_logs, upload_logs, a, remove_file, r) refl

    send_file-files :
        (m : Moment) (name : Text) (s : Server) (l : Logger)
        → m.removed ≡ true
        → (send_file json network platform m name s l).1.files ≡ erase name l.files
    unfolding send_file
    send_file-files m name s l r =
        send_logs-files m (if m.readable then get_lines (content_of name l.files) [] else []) name s
          l r

    send_pending_logs-fewer :
        (m : Moment) (init_complete : Bool) (s : Server) (l : Logger)
        → IsDue m l
        → m.removed ≡ true
        → pending_count
            (send_pending_logs json network platform readdir m init_complete s l).1.files
          ≤ pending_count l.files - 1
    unfolding send_pending_logs
    send_pending_logs-fewer m init_complete s l due removed =
        elim (Option-cases (get_new_file_to_send_log (readdir l.files))) [
          | inr (name, g) ↦
              let (listed, other) = new_file-Listed (readdir l.files) name g in
              let there = (lists l.files name).1 listed in
              simp (send_pending_logs, due, g)
                (rw (send_file-files m name s l removed)
                  (omega (arith, pending_count-erase name l.files there other)))
          | inl nothing ↦
              let zero_left : pending_count l.files ≡ 0 = pending_count-none l.files (λ name h.
                no_new_file-Listed (readdir l.files) name nothing ((lists l.files name).0 h)) in
              elim (Bool-cases l.is_open) [
                | inr shut ↦ simp (send_pending_logs, due, nothing, shut) (omega (arith, zero_left))
                | inl opened ↦ elim (Bool-cases (not init_complete || ltb 1000 l.position)) [
                  | inr t ↦
                      simp (send_pending_logs, due, nothing, opened, t) (omega (arith, zero_left))
                  | inl t ↦
                      simp (send_pending_logs, due, nothing, opened, t)
                        (rw (send_file-files m (pending_name m.file_date) s (put_aside m l) removed)
                          (omega (arith, put_aside-erase m l, zero_left)))
                ]
              ]
        ]

    send_rounds-fewer :
        (ms : List Moment) (init_complete : Bool) (x : Server × Logger)
        → AllDue ms init_complete x
        → pending_count (send_rounds ms init_complete x).1.files
          ≤ pending_count x.1.files - length ms
    unfolding send_rounds
    send_rounds-fewer [] init_complete x h = omega arith
    send_rounds-fewer (m ∷ ms) init_complete (s, l) (due, removed, rest) = omega (
      arith,
      send_pending_logs-fewer m init_complete s l due removed,
      send_rounds-fewer ms true
          (send_pending_logs json network platform readdir m init_complete s l) rest,
    )

    -- If the server accepts what it is sent, the directory is listed as it is and files can be removed,
    -- then every round that is due gets rid of a waiting file: after as many rounds as files wait, none
    -- waits any more.
    pub send_rounds-all :
        (ms : List Moment) (init_complete : Bool) (s : Server) (l : Logger)
        → AllDue ms init_complete (s, l)
        → pending_count l.files ≤ length ms
        → pending_count (send_rounds ms init_complete (s, l)).1.files ≡ 0
    send_rounds-all ms init_complete s l due enough =
        omega (arith, send_rounds-fewer ms init_complete (s, l) due)
