-- ===== src/Examples/Logs.antt =====
-- A logger at a file system that works and a server that takes every log.
use nimble_sdk.Prelude.{
  map, not, ◌&&◌, Bool, ◌==◌, ℕ, ◌≤◌, ◌≡◌, refl, sym, true, false, inl, inr, ◌↔◌, Bool-cases, some,
  List, [], ◌∷◌, ◌++◌, Text, codes, length, length-append, length-replicate, replicate, ltb,
  eq_text, eq_text_iff, compare_text, arith,
}
use nimble_sdk.Prelude.Map.{Map, find, insert, contains}
use nimble_sdk.Prelude.Int.{pos}
use nimble_sdk.Server.{Network}
use nimble_sdk.Logger.{
  Logger, Moment, Entry, latest, newline, pending_name, new_logger, content_of, entry,
  max_log_file_size, write_log,
}
use nimble_sdk.Logger.Upload.{get_lines}
use nimble_sdk.Logger.Delivery
use nimble_sdk.Logger.Delivery.{IsSafe, AllFresh, logged_stays}
use nimble_sdk.Logger.Pending.{Listed, pending_count}
use nimble_sdk.Logger.Progress.{send_rounds, send_rounds-all}
use nimble_sdk.Logger.Files.{join_lines}
use nimble_sdk.Logger.Lines.{IsLine, line_of, write_all, written_lines}
use nimble_sdk.Logger.Rotation.{write_log-bounded, write_log_overwrites}
use nimble_sdk.Examples.ToyJson.{toy_json}
use nimble_sdk.Examples.Device.{server}
use nimble_sdk.Examples.Cloud.{moment}

abbrev taking : Network
taking before r = record { status_code = pos 202; body = [] }

-- The files in the order of their names.
abbrev in_order : Map Text → List Entry
in_order [] = []
in_order ((name, content) ∷ files) = record { name = name; is_regular = true } ∷ in_order files

in_order-lists :
    (files : Map Text) (name : Text) → (contains name files ≡ true) ↔ Listed name (in_order files)
unfolding find
in_order-lists [] name = (λ h. absurd (cc), λ h. elim h [ ])
in_order-lists ((n, content) ∷ files) name = elim (Bool-cases (eq_text name n)) [
  | inl same ↦ (λ h. inl (sym ((eq_text_iff name n).0 same), refl), λ h. rw same refl)
  | inr other ↦ (
    λ h. inr ((in_order-lists files name).0 (ground (arith, other, h))),
    λ h. elim h [
      | inl (same, r) ↦ absurd (grind (arith, other, (eq_text_iff name n).1 (sym same)))
      | inr rest ↦ rw other ((in_order-lists files name).1 rest)
    ],
  )
]

-- One file waits to be sent beside the one that is written to.
abbrev waiting : Logger
waiting = record new_logger {
  files = (latest, codes "b") ∷ (codes "log1.txt", codes "a") ∷ [];
  is_open = true;
}

send_rounds-all_example :
    pending_count
      (send_rounds toy_json taking
        (codes "linux")
        in_order
        (moment 9000000 ∷ [])
        false
        (server, waiting)).1.files
    ≡ 0
unfolding pending_count compare_text
send_rounds-all_example =
    send_rounds-all toy_json taking (codes "linux") in_order (λ before r. refl) in_order-lists
      (moment 9000000 ∷ []) false server waiting (refl, refl, tt) (omega arith)

abbrev LogCall : Type 0
LogCall = Delivery.Call toy_json taking (codes "linux") in_order

abbrev later_calls : List LogCall
later_calls =
    Delivery.send (moment 9000000) true ∷ Delivery.configure (codes "k") (pos 5) (codes "u") ∷ []

logged_stays_example :
    IsSafe toy_json taking
      (codes "linux")
      (Delivery.calls toy_json taking
        (codes "linux")
        in_order
        (Delivery.log (moment 1) (codes "x") (codes "T") ∷ later_calls)
        (server, waiting)).0
      (Delivery.calls toy_json taking
        (codes "linux")
        in_order
        (Delivery.log (moment 1) (codes "x") (codes "T") ∷ later_calls)
        (server, waiting)).1
      (entry (moment 1) (codes "T") (codes "x"))
unfolding Delivery.call write_log content_of find insert compare_text
logged_stays_example =
    logged_stays toy_json taking (codes "linux") in_order (moment 1) (codes "x") (codes "T")
      later_calls server waiting refl (refl, ((refl, refl), (tt, tt)))

write_log-bounded_example :
    length (content_of latest (write_log (moment 1) (codes "x") (codes "T") waiting).files)
    ≤ max_log_file_size
write_log-bounded_example =
    write_log-bounded (moment 1) (codes "x") (codes "T") waiting refl refl refl

-- A message of 600000 letters.
unfoldable long_message : Text
long_message = replicate 600000 b'a'

length-long_message : length long_message ≡ 600000
unfolding long_message
length-long_message = length-replicate {A = ℕ} 600000 b'a'

-- The file of the first day of 2023 waits to be sent.
abbrev crowded : Logger
crowded = record new_logger {
  files = (latest, codes "b") ∷ (pending_name (codes "20230101"), codes "a") ∷ [];
  is_open = true;
}

long_entry :
    ltb max_log_file_size
      (length (content_of latest crowded.files ++ entry (moment 1) (codes "T") long_message))
    ≡ true
unfolding content_of find compare_text
long_entry = let l = length-append long_message (10 ∷ []) in ground (arith, l, length-long_message)

write_log_overwrites_example :
    find
      (pending_name (codes "20230101"))
      (write_log (moment 1) long_message (codes "T") crowded).files
    ≡ some (content_of latest crowded.files ++ entry (moment 1) (codes "T") long_message)
unfolding find compare_text
write_log_overwrites_example =
    write_log_overwrites (moment 1) long_message (codes "T") (codes "a") crowded refl refl
      long_entry refl

abbrev is_line : Text → Bool
is_line [] = true
is_line (c ∷ t) = not (c == newline) && is_line t

is_line-IsLine : (t : Text) → is_line t ≡ true → IsLine t
is_line-IsLine [] h = tt
is_line-IsLine (c ∷ t) h = (ground (arith, h), is_line-IsLine t (ground (arith, h)))

abbrev writes : List (Moment × Text × Text)
writes = (moment 1, codes "x", codes "T") ∷ (moment 2, codes "y", codes "U") ∷ []

-- A logger that was opened in an empty directory.
abbrev fresh : Logger
fresh = record new_logger { files = (latest, []) ∷ []; is_open = true }

written_lines_example :
    get_lines (content_of latest (write_all writes fresh).files) [] ≡ map line_of writes
unfolding content_of find compare_text join_lines
written_lines_example =
    written_lines writes [] fresh refl refl tt
      (
        is_line-IsLine (line_of (moment 1, codes "x", codes "T")) refl,
        (is_line-IsLine (line_of (moment 2, codes "y", codes "U")) refl, tt),
      )
      (omega arith)
