-- ===== src/Logger/Rotation.antt =====
-- What putting the written file aside does to its size, and to a file that has its new name.
use nimble_sdk.Prelude.{
  ◌≤◌, ◌≡◌, ◌∙◌, refl, true, inl, inr, Bool-cases, none, some, [], ◌++◌, Text, eq_text_refl, length,
  ltb, arith,
}
use nimble_sdk.Prelude.Map.{Map, find, insert, erase, find-insert, find-insert_self, find-erase}
use nimble_sdk.Logger.{
  Logger, Moment, latest, pending_name, put_aside, content_of, max_log_file_size, entry, write_log,
  rename, open_append,
}
use nimble_sdk.Logger.Files.{latest-pending, pending-latest, content_of-found}

-- The files after a successful rename.
abbrev moved : Moment → Text → Map Text → Map Text
moved m content files = insert (pending_name m.file_date) content (erase latest files)

moved-latest :
    (m : Moment) (content : Text) (files : Map Text) → find latest (moved m content files) ≡ none
moved-latest m content files =
    find-insert latest (pending_name m.file_date) content (erase latest files)
    ∙ rw (latest-pending m.file_date)
        (find-erase latest latest files ∙ rw (eq_text_refl latest) refl)

put_aside-latest :
    (m : Moment) (l : Logger) (content : Text)
    → m.renamed ≡ true
    → m.reopened ≡ true
    → find latest l.files ≡ some content
    → content_of latest (put_aside m l).files ≡ []
unfolding put_aside
put_aside-latest m l content r o f =
    let none_left = moved-latest m content l.files in
    simp (put_aside, r, o, rename, f, open_append, none_left)
      (content_of-found latest (insert latest [] (moved m content l.files))
        (find-insert_self latest [] _))

put_aside-pending :
    (m : Moment) (l : Logger) (content : Text)
    → m.renamed ≡ true
    → find latest l.files ≡ some content
    → find (pending_name m.file_date) (put_aside m l).files ≡ some content
unfolding put_aside
put_aside-pending m l content r f =
    let here = find-insert_self (pending_name m.file_date) content (erase latest l.files) in
    let none_left = moved-latest m content l.files in
    elim (Bool-cases m.reopened) [
      | inr o ↦ simp (put_aside, r, o, rename, f) here
      | inl o ↦
          simp (put_aside, r, o, rename, f, open_append, none_left)
            (find-insert (pending_name m.file_date) latest [] (moved m content l.files)
              ∙ rw (pending-latest m.file_date) here)
    ]

-- A call of write_log that can rename and open files leaves at most 500 KB in the file that is written
-- to, however long the message is.
pub write_log-bounded :
    (m : Moment) (message type : Text) (l : Logger)
    → l.is_open ≡ true
    → m.renamed ≡ true
    → m.reopened ≡ true
    → length (content_of latest (write_log m message type l).files) ≤ max_log_file_size
unfolding write_log
write_log-bounded m message type l opened r o =
    let content = content_of latest l.files ++ entry m type message in
    let written : Logger = record l {
      files = insert latest content l.files;
      position = length content;
    } in
    let here = find-insert_self latest content l.files in
    elim (Bool-cases (ltb max_log_file_size (length content))) [
      | inl big ↦
          simp (write_log, opened, big)
            (rw (put_aside-latest m written content r o here) (omega arith))
      | inr small ↦
          simp (write_log, opened, small)
            (rw (content_of-found latest (insert latest content l.files) here)
              (ground (arith, small)))
    ]

-- If the file outgrows 500 KB, the whole of it takes the name that is made of the date: a file that was
-- put aside under that name before, and waits to be sent, is overwritten.
pub write_log_overwrites :
    (m : Moment) (message type old : Text) (l : Logger)
    → l.is_open ≡ true
    → m.renamed ≡ true
    → ltb max_log_file_size (length (content_of latest l.files ++ entry m type message)) ≡ true
    → find (pending_name m.file_date) l.files ≡ some old
    → find (pending_name m.file_date) (write_log m message type l).files
      ≡ some (content_of latest l.files ++ entry m type message)
unfolding write_log
write_log_overwrites m message type old l opened r big f =
    let content = content_of latest l.files ++ entry m type message in
    let written : Logger = record l {
      files = insert latest content l.files;
      position = length content;
    } in
    simp (write_log, opened, big)
      (put_aside-pending m written content r (find-insert_self latest content l.files))
