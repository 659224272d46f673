-- ===== src/Logger/Kept.antt =====
-- What the operations of a logger keep of the entries in its files.
use nimble_sdk.Prelude.{
  ◌<◌, ◌≡◌, ◌∙◌, true, false, inl, inr, Bool-cases, none, some, [], ◌∷◌, ◌++◌, Text, eq_text,
  length, ltb, arith,
}
use nimble_sdk.Prelude.Map.{Map, find, insert, find-insert, find-insert_self}
use nimble_sdk.Logger.{
  Logger, Moment, latest, pending_name, content_of, max_log_file_size, entry, write_log,
}
use nimble_sdk.Logger.Upload.{remove_file}
use nimble_sdk.Logger.Files.{
  Occurs, Occurs-self, Held, Held-extend, Held-put_aside, find-erase_other, pending-latest,
}

-- An entry that is written stands in a file.
Held-written :
    (e : Text) (files : Map Text) → Held e (insert latest (content_of latest files ++ e) files)
Held-written e files = (
  latest,
  content_of latest files ++ e,
  find-insert_self latest _ files,
  Occurs-self e (content_of latest files),
)

-- No file has the name that a file is given when it is put aside.
abbrev pub IsFresh : Moment → Logger → Type 0
IsFresh m l = find (pending_name m.file_date) l.files ≡ none

IsFresh-written :
    (m : Moment) (l : Logger) (content : Text)
    → IsFresh m l
    → find (pending_name m.file_date) (insert latest content l.files) ≡ none
IsFresh-written m l content free =
    find-insert (pending_name m.file_date) latest content l.files
    ∙ rw (pending-latest m.file_date) free

-- What write_log does with the extended file keeps what that holds.
write_log-Held :
    (e : Text) (m : Moment) (message type : Text) (l : Logger)
    → l.is_open ≡ true
    → IsFresh m l
    → Held e (insert latest (content_of latest l.files ++ entry m type message) l.files)
    → Held e (write_log m message type l).files
unfolding write_log
write_log-Held e m message type l opened free h =
    let content = content_of latest l.files ++ entry m type message in
    let written : Logger = record l {
      files = insert latest content l.files;
      position = length content;
    } in
    elim (Bool-cases (ltb max_log_file_size (length content))) [
      | inl big ↦
          simp (write_log, opened, big)
            (Held-put_aside e m written (IsFresh-written m l content free) h)
      | inr small ↦ simp (write_log, opened, small) h
    ]

pub write_log-keeps :
    (e : Text) (m : Moment) (message type : Text) (l : Logger)
    → IsFresh m l
    → Held e l.files
    → Held e (write_log m message type l).files
unfolding write_log
write_log-keeps e m message type l free h = elim (Bool-cases l.is_open) [
  | inl opened ↦
      write_log-Held e m message type l opened free
        (Held-extend e latest (entry m type message) l.files h)
  | inr shut ↦ simp (write_log, shut) h
]

pub write_log-holds :
    (m : Moment) (message type : Text) (l : Logger)
    → l.is_open ≡ true
    → IsFresh m l
    → Held (entry m type message) (write_log m message type l).files
write_log-holds m message type l opened free =
    write_log-Held (entry m type message) m message type l opened free
      (Held-written (entry m type message) l.files)

pub remove_file-keeps :
    (e name : Text) (m : Moment) (l : Logger) (n content : Text)
    → eq_text n name ≡ false
    → find n l.files ≡ some content
    → Occurs e content
    → Held e (remove_file m name l).files
unfolding remove_file
remove_file-keeps e name m l n content other f h = elim (Bool-cases m.removed) [
  | inl r ↦ simp (remove_file, r) (n, content, find-erase_other n name l.files other ∙ f, h)
  | inr r ↦ simp (remove_file, r) (n, content, f, h)
]

pub entry-positive : (m : Moment) (type message : Text) → 0 < length (entry m type message)
entry-positive m [] message = omega arith
entry-positive m (c ∷ type) message = omega arith

pub not_in_nothing : (e a b : Text) → 0 < length e → [] ≡ a ++ (e ++ b) → ⊥
not_in_nothing [] a b p h = elim p [ ]
not_in_nothing (c ∷ e) [] b p h = cc
not_in_nothing (c ∷ e) (x ∷ a) b p h = cc
