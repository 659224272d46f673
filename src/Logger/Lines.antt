-- ===== src/Logger/Lines.antt =====
-- The lines that are written to a file are the lines that are read from it and sent.
use nimble_sdk.Prelude.{
  ◌≤◌, ◌≡◌, ◌∙◌, ap, refl, sym, true, false, List, [], ◌∷◌, ◌++◌, Text, codes, All, map, ◌==◌,
  length, length-append, ltb, arith,
}
use mathlib.Core.List.{append_assoc, append-nil}
use nimble_sdk.Prelude.Map.{insert, find-insert_self}
use nimble_sdk.Logger.{
  Logger, Moment, latest, newline, entry, content_of, write_log, max_log_file_size,
}
use nimble_sdk.Logger.Upload.{get_lines}
use nimble_sdk.Logger.Files.{join_lines, content_of-found}

-- A text of one line.
abbrev pub IsLine : Text → Type 0
IsLine [] = Unit
IsLine (c ∷ t) = ((c == newline) ≡ false) × IsLine t

get_lines-line :
    (line t read : Text)
    → IsLine line
    → get_lines (line ++ newline ∷ t) read ≡ (read ++ line) ∷ get_lines t []
unfolding get_lines
get_lines-line [] t read h = simp append-nil refl
get_lines-line (c ∷ line) t read (h, hs) =
    rw h (get_lines-line line t (read ++ c ∷ []) hs ∙ simp append_assoc refl)

get_lines-join_lines :
    (lines : List Text) → All IsLine lines → get_lines (join_lines lines) [] ≡ lines
unfolding join_lines get_lines
get_lines-join_lines [] h = refl
get_lines-join_lines (line ∷ lines) (h, hs) =
    get_lines-line line (join_lines lines) [] h
    ∙ ap (λ ls. line ∷ ls) (get_lines-join_lines lines hs)

-- The line of a call of write_log, without its end.
abbrev pub line_of : Moment × Text × Text → Text
line_of (m, message, type) = type ++ (codes " " ++ (m.date ++ (codes " ::: " ++ message)))

entry-line :
    (m : Moment) (message type : Text)
    → entry m type message ≡ line_of (m, message, type) ++ newline ∷ []
entry-line m message type = simp append_assoc refl

join_lines-append :
    (lines more : List Text) → join_lines (lines ++ more) ≡ join_lines lines ++ join_lines more
unfolding join_lines
join_lines-append [] more = refl
join_lines-append (line ∷ lines) more =
    ap (λ t. line ++ newline ∷ t) (join_lines-append lines more) ∙ simp append_assoc refl

All-append : (xs ys : List Text) → All IsLine xs → All IsLine ys → All IsLine (xs ++ ys)
All-append [] ys h k = k
All-append (x ∷ xs) ys (h, hs) k = (h, All-append xs ys hs k)

-- The calls of write_log in a row.
unfoldable pub write_all : List (Moment × Text × Text) → Logger → Logger
write_all [] l = l
write_all ((m, message, type) ∷ writes) l = write_all writes (write_log m message type l)

write_log-small :
    (m : Moment) (message type : Text) (lines : List Text) (l : Logger)
    → l.is_open ≡ true
    → content_of latest l.files ≡ join_lines lines
    → length (join_lines (lines ++ line_of (m, message, type) ∷ [])) ≤ max_log_file_size
    → ((write_log m message type l).is_open ≡ true)
      × (content_of latest (write_log m message type l).files
          ≡ join_lines (lines ++ line_of (m, message, type) ∷ []))
unfolding write_log join_lines
write_log-small m message type lines l opened holds small =
    let content = content_of latest l.files ++ entry m type message in
    let same : content ≡ join_lines (lines ++ line_of (m, message, type) ∷ []) =
      rw (holds, entry-line m message type)
        (sym (join_lines-append lines (line_of (m, message, type) ∷ []))) in
    let fits : ltb max_log_file_size (length content) ≡ false = rw same (ground (arith, small)) in
    let here = find-insert_self latest content l.files in
    simp (write_log, opened, fits)
      (refl, content_of-found latest (insert latest content l.files) here ∙ same)

write_all-content :
    (writes : List (Moment × Text × Text)) (lines : List Text) (l : Logger)
    → l.is_open ≡ true
    → content_of latest l.files ≡ join_lines lines
    → length (join_lines (lines ++ map line_of writes)) ≤ max_log_file_size
    → content_of latest (write_all writes l).files ≡ join_lines (lines ++ map line_of writes)
unfolding write_all
write_all-content [] lines l opened holds small = rw (append-nil lines) holds
write_all-content ((m, message, type) ∷ writes) lines l opened holds small =
    let line = line_of (m, message, type) in
    let shift : lines ++ line ∷ map line_of writes ≡ (lines ++ line ∷ []) ++ map line_of writes =
      simp append_assoc refl in
    let longer =
      length-append (join_lines (lines ++ line ∷ [])) (join_lines (map line_of writes)) in
    let joined = join_lines-append (lines ++ line ∷ []) (map line_of writes) in
    let small' : length (join_lines ((lines ++ line ∷ []) ++ map line_of writes))
        ≤ max_log_file_size =
      rw (sym shift) small in
    let first : length (join_lines (lines ++ line ∷ [])) ≤ max_log_file_size =
      omega (arith, longer, (rw joined at small')) in
    let (still, now) = write_log-small m message type lines l opened holds first in
    rw shift
      (write_all-content writes (lines ++ line ∷ []) (write_log m message type l) still now small')

-- If the file that is written to holds whole lines, and no message breaks a line, then what is
-- written in a row, up to 500 KB, is what the upload reads: every line once, in the order in which
-- they were written, behind those that were there.
pub written_lines :
    (writes : List (Moment × Text × Text)) (lines : List Text) (l : Logger)
    → l.is_open ≡ true
    → content_of latest l.files ≡ join_lines lines
    → All IsLine lines
    → All IsLine (map line_of writes)
    → length (join_lines (lines ++ map line_of writes)) ≤ max_log_file_size
    → get_lines (content_of latest (write_all writes l).files) [] ≡ lines ++ map line_of writes
written_lines writes lines l opened holds whole unbroken small =
    rw (write_all-content writes lines l opened holds small) (
      get_lines-join_lines (lines ++ map line_of writes)
        (All-append lines (map line_of writes) whole unbroken))
