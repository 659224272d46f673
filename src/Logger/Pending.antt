-- ===== src/Logger/Pending.antt =====
-- How many files of a logger's directory wait to be sent.
use nimble_sdk.Prelude.{
  ℕ, suc, ◌≤◌, ◌≡◌, refl, sym, ◌⊎◌, inl, inr, true, false, not, ◌&&◌, Bool-cases, Option-cases,
  none, some, List, [], ◌∷◌, Text, eq_text, compare_text_refl, compare_text_eq, arith,
  if◌then◌else◌,
}
use nimble_sdk.Prelude.Map.{Map, find, insert, erase, contains}
use nimble_sdk.Logger.{Entry, Moment, Logger, latest, pending_name, rename, open_append, put_aside}
use nimble_sdk.Logger.Upload.{get_new_file_to_send_log}

unfoldable pub pending_count : Map Text → ℕ
pending_count [] = 0
pending_count ((name, content) ∷ files) =
    let rest = pending_count files in if eq_text name latest then rest else suc rest

pub pending_count-erase_le :
    (name : Text) (files : Map Text) → pending_count (erase name files) ≤ pending_count files
unfolding pending_count erase
pending_count-erase_le name [] = omega arith
pending_count-erase_le name ((n, content) ∷ files) =
    ground (arith, pending_count-erase_le name files)

-- A pending file that is removed was one of them.
pub pending_count-erase :
    (name : Text) (files : Map Text)
    → contains name files ≡ true
    → eq_text name latest ≡ false
    → suc (pending_count (erase name files)) ≤ pending_count files
unfolding pending_count erase find
pending_count-erase name [] h other = cc
pending_count-erase name ((n, content) ∷ files) h other = ground (
  arith,
  pending_count-erase name files,
  pending_count-erase_le name files,
  compare_text_eq name n,
)

pending_count-erase-insert :
    (name content : Text) (files : Map Text)
    → pending_count (erase name (insert name content files)) ≤ pending_count files
unfolding pending_count erase insert
pending_count-erase-insert name content [] = ground (arith, compare_text_refl name)
pending_count-erase-insert name content ((n, c) ∷ files) = ground (
  arith,
  pending_count-erase-insert name content files,
  pending_count-erase_le name files,
  compare_text_refl name,
  compare_text_eq name n,
)

pending_count-erase-insert-latest :
    (name content : Text) (files : Map Text)
    → pending_count (erase name (insert latest content files)) ≤ pending_count (erase name files)
unfolding pending_count erase insert
pending_count-erase-insert-latest name content [] = ground (arith, compare_text_refl latest)
pending_count-erase-insert-latest name content ((n, c) ∷ files) = ground (
  arith,
  pending_count-erase-insert-latest name content files,
  compare_text_refl latest,
  compare_text_eq latest n,
)

-- Once it is sent and removed, the file that was put aside does not wait.
pub put_aside-erase :
    (m : Moment) (l : Logger)
    → pending_count (erase (pending_name m.file_date) (put_aside m l).files) ≤ pending_count l.files
unfolding put_aside rename open_append
put_aside-erase m l =
    let name = pending_name m.file_date in
    let files = (if m.renamed then rename latest name l.files else l.files) in
    let moved : pending_count (erase name files) ≤ pending_count l.files =
      elim (Bool-cases m.renamed) [
        | inr r ↦ rw r (pending_count-erase_le name l.files)
        | inl r ↦ elim (Option-cases (find latest l.files)) [
          | inl nothing ↦ rw (r, rename, nothing) (pending_count-erase_le name l.files)
          | inr (content, f) ↦
              rw (r, rename, f)
                (omega (
                  arith,
                  pending_count-erase-insert name content (erase latest l.files),
                  pending_count-erase_le latest l.files,
                ))
        ]
      ] in
    elim (Bool-cases m.reopened) [
      | inr o ↦ rw (put_aside, o) moved
      | inl o ↦ elim (Bool-cases (contains latest files)) [
        | inl there ↦ rw (put_aside, o, open_append, there) moved
        | inr missing ↦
            rw (put_aside, o, open_append, missing)
              (omega (arith, pending_count-erase-insert-latest name [] files, moved))
      ]
    ]

-- A regular file is listed.
abbrev pub Listed : Text → List Entry → Type 0
Listed name [] = ⊥
Listed name (e ∷ es) = ((e.name ≡ name) × (e.is_regular ≡ true)) ⊎ Listed name es

pub new_file-Listed :
    (es : List Entry) (name : Text)
    → get_new_file_to_send_log es ≡ some name
    → Listed name es × (eq_text name latest ≡ false)
unfolding get_new_file_to_send_log
new_file-Listed [] name h = cc
new_file-Listed (e ∷ es) name h = elim (Bool-cases (e.is_regular && not (eq_text e.name latest))) [
  | inl found ↦
      let n : e.name ≡ name = ground (arith, found, h) in
      let r : e.is_regular ≡ true = ground (arith, found) in
      let o : eq_text e.name latest ≡ false = ground (arith, found) in (inl (n, r), rw (sym n) o)
  | inr passed ↦
      let g : get_new_file_to_send_log es ≡ some name = ground (arith, passed, h) in
      let (listed, other) = new_file-Listed es name g in (inr listed, other)
]

pub no_new_file-Listed :
    (es : List Entry) (name : Text)
    → get_new_file_to_send_log es ≡ none
    → Listed name es
    → eq_text name latest ≡ true
unfolding get_new_file_to_send_log
no_new_file-Listed [] name h listed = elim listed [ ]
no_new_file-Listed (e ∷ es) name h (inl (n, r)) =
    let o : eq_text e.name latest ≡ true = ground arith in rw (sym n) o
no_new_file-Listed (e ∷ es) name h (inr rest) = no_new_file-Listed es name (ground arith) rest

pub pending_count-none :
    (files : Map Text)
    → ((name : Text) → contains name files ≡ true → eq_text name latest ≡ true)
    → pending_count files ≡ 0
unfolding pending_count find
pending_count-none [] all = refl
pending_count-none ((n, content) ∷ files) all =
    let this : eq_text n latest ≡ true = all n (ground (arith, compare_text_refl n)) in
    let rest = pending_count-none files (λ name h. all name (ground (arith, h))) in
    rw (this, rest) refl
