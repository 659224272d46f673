-- ===== src/Client.antt =====
-- linux/src/client.cpp: the platform that the SDK runs on under Linux. curl is the argument
-- `perform`: what it hands to writefunc, piece by piece, and the response code, each `none` where its
-- call fails. A file system is its files by their paths.
use nimble_sdk.Prelude.{
  Bool, not, Option, none, some, List, [], ◌∷◌, ◌++◌, Text, codes, eq_text, if◌then◌else◌,
}
use nimble_sdk.Prelude.Map.{Map, find, insert, erase, contains}
use nimble_sdk.Prelude.Int.{ℤ, pos}
use nimble_sdk.Json.{Json}
use nimble_sdk.Server.{Request}

-- CNetworkResponse; `none` is a null body.
pub record ClientResponse : Type 0 where
  pub status_code : ℤ
  pub body : Option Text

-- What curl is told of a request.
pub record Transfer : Type 0 where
  pub headers : List Text
  pub url : Text
  -- CURLOPT_POSTFIELDS
  pub post : Option Text

-- writefunc, over all pieces.
unfoldable pub write_pieces : Text → List Text → Text
write_pieces s [] = s
write_pieces s (piece ∷ pieces) = write_pieces (s ++ piece) pieces

abbrev pub failed : ClientResponse
failed = record { status_code = pos 900; body = none }

module _ (json : Json) where
  open json use {J, parse, as_text}

  -- The loop over the headers; the exception of a value that is no text ends it.
  unfoldable pub header_lines : List (Text × J) → List Text
  header_lines [] = []
  header_lines ((key, value) ∷ items) = elim (as_text value) [
    | none ↦ []
    | some t ↦ (key ++ (codes ": " ++ t)) ∷ header_lines items
  ]

  -- `items` gives the keys of an object with their values.
  unfoldable pub transfer : (J → List (Text × J)) → Request → Transfer
  unfolding header_lines
  transfer items r = record {
    headers = elim (parse r.header) [ none ↦ [] | some j ↦ header_lines (items j) ];
    url = r.url;
    post = if eq_text r.method (codes "GET") then none else some r.body;
  }

  unfoldable pub send_request :
      (J → List (Text × J)) → (Transfer → Option (List Text × Option ℤ)) → Request → ClientResponse
  unfolding transfer write_pieces
  send_request items perform r = elim (perform (transfer items r)) [
    | none ↦ failed
    | some (pieces, none) ↦ failed
    | some (pieces, some code) ↦ record { status_code = code; body = some (write_pieces [] pieces) }
  ]

-- The same whatever the type of the metrics is.
unfoldable pub get_metrics : Text → Text
get_metrics metric_type = codes "{}"

-- `opened` is whether fopen succeeds; `none` is what happens with a null FILE.
unfoldable pub save : Bool → Text → Text → Bool → Map Text → Option (Map Text × Text)
save opened input path overwrite files =
    let before : Text =
      (if overwrite then [] else elim (find path files) [ none ↦ [] | some old ↦ old ]) in
    let answer =
      codes "{\"status\":true, \"error\":\"\", \"file_location\":\"" ++ (path ++ codes "\"}") in
    if not opened then none else some (insert path (before ++ input) files, answer)

unfoldable pub delete_data : Text → Map Text → Map Text
delete_data path files = erase path files

-- The text is put into the answer as it is.
unfoldable pub retrieve : Text → Map Text → Text
retrieve path files = elim (find path files) [
  | none ↦ codes "{\"status\":false, \"error\":\"ERROR\", \"data\":\"\"}"
  | some text ↦ codes "{\"status\":true, \"error\":\"\", \"data\":" ++ (text ++ codes "}")
]

unfoldable pub check_if_exists : Text → Map Text → Bool
check_if_exists path files = contains path files
