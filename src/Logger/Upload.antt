-- ===== src/Logger/Upload.antt =====
-- nimblenet/util: the upload of a logger's files.
use nimble_sdk.Prelude.{
  ◌-◌, ◌/◌, Bool, true, false, not, ◌&&◌, ◌||◌, Option, none, some, List, [], ◌∷◌, ◌++◌, Text,
  codes, map, ltb, ◌==◌, eq_text, if◌then◌else◌,
}
use nimble_sdk.Prelude.Map.{Map, erase}
use nimble_sdk.Prelude.Int.{pos, leb_ℤ}
use nimble_sdk.Json.{Json}
use nimble_sdk.Server.{Server, Network}
use nimble_sdk.Server.Logs.{LogRequestBody, upload_logs}
use nimble_sdk.Logger.{
  LoggingConfig, Logger, Moment, Entry, latest, pending_name, newline, content_of, put_aside,
}

-- The loop `while (getline(logfile, line))`, with what is read of a line.
unfoldable pub get_lines : Text → Text → List Text
get_lines [] [] = []
get_lines [] (c ∷ line) = (c ∷ line) ∷ []
get_lines (c ∷ t) line =
    let rest = get_lines t (if c == newline then [] else line ++ c ∷ []) in
    if c == newline then line ∷ rest else rest

-- `log.find(":::") == 0`
abbrev pub at_colons : Text → Bool
at_colons (a ∷ b ∷ c ∷ t) = (a == b':') && ((b == b':') && (c == b':'))
at_colons _ = false

-- `log.substr(0, log.find(":::"))`
unfoldable pub log_type : Text → Text
log_type [] = []
log_type (c ∷ t) = let rest = log_type t in if at_colons (c ∷ t) then [] else c ∷ rest

-- getNewFileToSendLog: the first regular file that is not the one that is written to.
unfoldable pub get_new_file_to_send_log : List Entry → Option Text
get_new_file_to_send_log [] = none
get_new_file_to_send_log (e ∷ es) =
    if e.is_regular && not (eq_text e.name latest) then some e.name else get_new_file_to_send_log es

unfoldable pub remove_file : Moment → Text → Logger → Logger
remove_file m name l = if m.removed then record l { files = erase name l.files } else l

module _ (json : Json) where
  open json use {J, of_text, of_list, of_object}

  -- What is sent of a line; `platform` is PLATFORM.
  unfoldable pub log_object : Text → LoggingConfig → Text → J
  unfolding log_type
  log_object platform c log = of_object (
      (codes "deviceID", of_text c.device_id)
      ∷ (codes "message", of_text log)
      ∷ (codes "logType", of_text (log_type log))
      ∷ (codes "service", of_text (codes "nimbleSDK"))
      ∷ (codes "clientId", of_text c.client_id)
      ∷ (codes "ddsource", of_text platform)
      ∷ (codes "ddtags", of_text (codes "env:nimblepoc,version:1.0"))
      ∷ [])

  unfoldable pub log_header : LoggingConfig → J
  log_header c = of_object (
      (codes "Content-Type", of_text (codes "application/json"))
      ∷ (codes "DD-API-KEY", of_text c.secret_key)
      ∷ (codes "Accept", of_text (codes "application/json"))
      ∷ [])

  unfoldable pub log_request_body : Text → LoggingConfig → List Text → LogRequestBody json
  unfolding log_object log_header
  log_request_body platform c logs = record {
    host = c.host;
    headers = log_header c;
    body = of_list (map (log_object platform c) logs);
  }

  module _ (network : Network) (platform : Text) where
    unfoldable pub send_logs : Moment → List Text → Text → Server → Logger → Server × Logger × Bool
    unfolding log_request_body remove_file upload_logs
    send_logs m [] name s l = (s, remove_file m name l, true)
    send_logs m (log ∷ logs) name s l =
        let (s', sent) =
          upload_logs json network (log_request_body platform l.log_config (log ∷ logs)) s in
        if sent then (s', remove_file m name l, true) else (s', l, false)

    -- The end of send_pending_logs: the file is read and sent. One that cannot be opened has no lines.
    unfoldable pub send_file : Moment → Text → Server → Logger → Server × Logger
    unfolding send_logs get_lines content_of
    send_file m name s l =
        let lines = if m.readable then get_lines (content_of name l.files) [] else [] in
        let (s', l', sent) = send_logs m lines name s l in
        (s', record l' { last_log_time = m.later })

    unfoldable pub send_pending_logs :
        (Map Text → List Entry) → Moment → Bool → Server → Logger → Server × Logger
    unfolding send_file get_new_file_to_send_log put_aside
    send_pending_logs readdir m init_complete s l =
        if leb_ℤ (pos ((m.now - l.last_log_time) / 1000000)) l.timer_interval
        then (s, l)
        else elim (get_new_file_to_send_log (readdir l.files)) [
          | some name ↦ send_file m name s l
          | none ↦
              if not l.is_open
              then (s, l)
              else if not init_complete || ltb 1000 l.position
              then send_file m (pending_name m.file_date) s (put_aside m l)
              else (s, l)
        ]
