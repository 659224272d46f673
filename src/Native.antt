-- ===== src/Native.antt =====
-- nimblenet/NativeInterface: the files of the device and the requests, over the client of the platform.
use nimble_sdk.Prelude.{Bool, true, Option, none, some, List, [], ◌++◌, Text, if◌then◌else◌}
use nimble_sdk.Prelude.Map.{Map, find, insert}
use nimble_sdk.Server.{Request, Response, Network}
use nimble_sdk.Client.{ClientResponse, get_metrics}

-- NetworkResponse and the string that its users make of it: a null body becomes an empty one.
unfoldable pub network_response : ClientResponse → Response
network_response r = record {
  status_code = r.status_code;
  body = elim r.body [ none ↦ [] | some text ↦ text ];
}

-- The network of the server is a client that has seen the requests before.
unfoldable pub send_request : (List Request → Request → ClientResponse) → Network
unfolding network_response
send_request client sent r = network_response (client sent r)

unfoldable pub get_file_from_device : Text → Text → Map Text → Option Text
get_file_from_device home name files = find (home ++ name) files

-- Both files that cannot be opened and files that cannot be written count as saved.
unfoldable pub save_file_on_device : Text → Bool → Text → Text → Bool → Map Text → Map Text × Bool
save_file_on_device home opened content name overwrite files =
    let before : Text =
      (if overwrite then [] else elim (find (home ++ name) files) [ none ↦ [] | some old ↦ old ]) in
    if opened then (insert (home ++ name) (before ++ content) files, true) else (files, true)

-- `get_metrics(SYSTEMMETRICS)`
unfoldable pub get_system_metrics : Text → Text
unfolding get_metrics
get_system_metrics system_metrics = get_metrics system_metrics
