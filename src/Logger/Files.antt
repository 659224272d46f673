-- ===== src/Logger/Files.antt =====
-- Entries in the files of a logger's directory, and in the lines read from them.
use nimble_sdk.Prelude.{
  ◌≡◌, ◌∙◌, refl, sym, ap, false, inl, inr, Bool-cases, Option-cases, none, some, List, [], ◌∷◌,
  ◌++◌, Text, eq_text, eq_text_iff, compare_text, ◌==◌, arith, if◌then◌else◌,
}
use mathlib.Core.List.{append_assoc, append-nil}
use nimble_sdk.Prelude.Map.{Map, find, insert, erase, find-insert, find-insert_self, find-erase}
use nimble_sdk.Logger.{
  Logger, Moment, latest, pending_name, newline, rename, open_append, content_of, put_aside,
}
use nimble_sdk.Logger.Upload.{get_lines}

-- A text stands in another one.
abbrev pub Occurs : Text → Text → Type 0
Occurs e t = (a : Text) × (b : Text) × (t ≡ a ++ (e ++ b))

pub Occurs-append : (e t u : Text) → Occurs e t → Occurs e (t ++ u)
Occurs-append e t u (a, b, h) = (a, b ++ u, rw h (simp append_assoc))

pub Occurs-self : (e t : Text) → Occurs e (t ++ e)
Occurs-self e t = (t, [], simp append-nil)

-- The lines, each with its end.
unfoldable pub join_lines : List Text → Text
join_lines [] = []
join_lines (line ∷ lines) = line ++ newline ∷ join_lines lines

-- The lines that are read from a text hold all of it.
pub get_lines-join :
    (t line : Text) → (b : Text) × (join_lines (get_lines t line) ≡ (line ++ t) ++ b)
unfolding get_lines join_lines
get_lines-join [] [] = ([], refl)
get_lines-join [] (c ∷ line) = (newline ∷ [], simp append-nil)
get_lines-join (c ∷ t) line = elim (Bool-cases (c == newline)) [
  | inl e ↦
      let (b, h) = get_lines-join t [] in
      let n : c ≡ newline = ground (arith, e) in
      (b, rw (get_lines, e) (rw (h, n) (simp append_assoc)))
  | inr e ↦
      let (b, h) = get_lines-join t (line ++ c ∷ []) in
      (b, rw (get_lines, e) (rw h (simp append_assoc)))
]

pub Occurs-lines : (e t : Text) → Occurs e t → Occurs e (join_lines (get_lines t []))
Occurs-lines e t h = let (b, k) = get_lines-join t [] in rw k (Occurs-append e t b h)

-- An entry stands in a file.
abbrev pub Held : Text → Map Text → Type 0
Held e files =
    (name : Text) × (content : Text) × (find name files ≡ some content) × Occurs e content

pub latest-pending : (date : Text) → eq_text latest (pending_name date) ≡ false
unfolding compare_text
latest-pending date = refl

pub pending-latest : (date : Text) → eq_text (pending_name date) latest ≡ false
unfolding compare_text
pending-latest date = refl

pub content_of-found :
    (name : Text) (files : Map Text) {content : Text}
    → find name files ≡ some content
    → content_of name files ≡ content
unfolding content_of
content_of-found name files h = rw (h, content_of) refl

-- A file that is written to at its end keeps what it holds, and so do the others.
pub Held-extend :
    (e name u : Text) (files : Map Text)
    → Held e files
    → Held e (insert name (content_of name files ++ u) files)
Held-extend e name u files (n, content, f, h) = elim (Bool-cases (eq_text n name)) [
  | inl same ↦
      let g : find name files ≡ some content = rw (sym ((eq_text_iff n name).0 same)) f in
      let k = ap (λ (t : Text). some (t ++ u)) (content_of-found name files g) in
      (n, content ++ u, find-insert n name _ files ∙ rw same k, Occurs-append e content u h)
  | inr other ↦ (n, content, find-insert n name _ files ∙ rw other f, h)
]

-- A file of a new name hides no other.
Held-insert_free :
    (e name u : Text) (files : Map Text)
    → find name files ≡ none
    → Held e files
    → Held e (insert name u files)
Held-insert_free e name u files free (n, content, f, h) = elim (Bool-cases (eq_text n name)) [
  | inl same ↦
      let g : find name files ≡ some content = rw (sym ((eq_text_iff n name).0 same)) f in
      absurd (cc)
  | inr other ↦ (n, content, find-insert n name u files ∙ rw other f, h)
]

Held-open : (e name : Text) (files : Map Text) → Held e files → Held e (open_append name files)
unfolding open_append
Held-open e name files h = elim (Option-cases (find name files)) [
  | inl free ↦ rw (open_append, free) (Held-insert_free e name [] files free h)
  | inr (content, f) ↦ rw (open_append, f) h
]

-- A file that is not the removed one stays.
pub find-erase_other :
    (n name : Text) (files : Map Text)
    → eq_text n name ≡ false
    → find n (erase name files) ≡ find n files
find-erase_other n name files other = find-erase n name files ∙ rw other refl

-- Renaming to a name that no file has keeps every entry.
Held-rename :
    (e date : Text) (files : Map Text)
    → find (pending_name date) files ≡ none
    → Held e files
    → Held e (rename latest (pending_name date) files)
unfolding rename
Held-rename e date files free (n, content, f, h) = elim (Option-cases (find latest files)) [
  | inl nothing ↦ rw (rename, nothing) (n, content, f, h)
  | inr (written, g) ↦
      rw (rename, g)
        (elim (Bool-cases (eq_text n latest)) [
          | inl same ↦
              let k : find latest files ≡ some content =
                rw (sym ((eq_text_iff n latest).0 same)) f in
              let w : written ≡ content = cc in
              (pending_name date, written, find-insert_self (pending_name date) written _, rw w h)
          | inr other ↦
              let kept = find-erase_other n latest files other ∙ f in
              let unnamed : find (pending_name date) (erase latest files) ≡ none =
                find-erase_other (pending_name date) latest files (pending-latest date) ∙ free in
              Held-insert_free e (pending_name date) written (erase latest files) unnamed
                (n, content, kept, h)
        ])
]

-- Putting the written file aside under a new name keeps every entry.
pub Held-put_aside :
    (e : Text) (m : Moment) (l : Logger)
    → find (pending_name m.file_date) l.files ≡ none
    → Held e l.files
    → Held e (put_aside m l).files
unfolding put_aside
Held-put_aside e m l free h =
    let files = (if m.renamed then rename latest (pending_name m.file_date) l.files else l.files) in
    let moved : Held e files = elim (Bool-cases m.renamed) [
      | inl r ↦ rw r (Held-rename e m.file_date l.files free h)
      | inr r ↦ rw r h
    ] in
    elim (Bool-cases m.reopened) [
      | inl o ↦ rw (put_aside, o) (Held-open e latest files moved)
      | inr o ↦ rw (put_aside, o) moved
    ]
