-- ===== src/Logger.antt =====
-- nimblenet/util: Logger. What is outside the process is the argument `m` of an operation: the
-- strings of getStringDate, the clock, and which calls of the file system succeed. `files` holds
-- the logger's directory, `readdir` is the order in which it is listed. A file that is not open is a
-- null `_writeFilePtr`.
pub mod Upload
pub mod Files
pub mod Kept
pub mod Delivery
pub mod Pending
pub mod Progress
pub mod Rotation
pub mod Levels
pub mod Lines
use nimble_sdk.Prelude.{
  ℕ, zero, suc, ◌+◌, ◌*◌, ◌-◌, ◌/◌, ◌%◌, Bool, true, false, not, ◌&&◌, ◌||◌, Option, none, some,
  List, [], ◌∷◌, ◌++◌, Text, codes, map, length, ltb, ◌==◌, eq_text, if◌then◌else◌,
}
use nimble_sdk.Prelude.Map.{Map, find, insert, erase, contains}
use nimble_sdk.Prelude.Int.{ℤ, pos, negsuc, leb_ℤ}
use nimble_sdk.Json.{Json}
use nimble_sdk.Server.{Server, Network, Request}
use nimble_sdk.Server.Logs.{LogRequestBody, upload_logs}
use nimble_sdk.Server.Cloud.{default_upload_logs_url}

pub record LoggingConfig : Type 0 where
  pub host : Text
  pub secret_key : Text
  pub device_id : Text
  pub client_id : Text

pub record Logger : Type 0 where
  pub files : Map Text
  pub is_open : Bool
  -- `ftell(_writeFilePtr)`, which is 0 before the first write.
  pub position : ℕ
  pub log_config : LoggingConfig
  -- In microseconds.
  pub last_log_time : ℕ
  -- In seconds.
  pub timer_interval : ℤ
  pub is_debug : Bool

pub record Moment : Type 0 where
  pub date : Text
  -- The date in the name of a file that is put aside.
  pub file_date : Text
  pub now : ℕ
  pub later : ℕ
  pub renamed : Bool
  pub reopened : Bool
  pub removed : Bool
  -- Whether the file that is to be sent can be opened for reading.
  pub readable : Bool

pub record Entry : Type 0 where
  pub name : Text
  pub is_regular : Bool

abbrev pub latest : Text
latest = codes "latest.txt"

abbrev pub pending_name : Text → Text
pending_name date = codes "log" ++ date ++ codes ".txt"

abbrev pub newline : ℕ
newline = 10

-- The bytes of an int64_t, the lowest first.
unfoldable pub bytes_of : ℕ → ℕ → Text
bytes_of zero n = []
bytes_of (suc count) n = n % 256 ∷ bytes_of count (n / 256)

-- LoggingConfig(): the bytes of `secVec`.
unfoldable pub default_secret_key : Text
unfolding bytes_of
default_secret_key =
    bytes_of 8 3617574009957856822
    ++ (bytes_of 8 7161680211933160759
        ++ (bytes_of 8 3834033765364414521 ++ bytes_of 8 7378366457403629875))

-- The time so many seconds ago.
abbrev pub seconds_before : ℕ → ℤ → ℕ
seconds_before now (pos n) = now - n * 1000000
seconds_before now (negsuc n) = now + suc n * 1000000

abbrev pub twice_ℤ : ℤ → ℤ
twice_ℤ (pos n) = pos (2 * n)
twice_ℤ (negsuc n) = negsuc (2 * n + 1)

-- Logger as it is constructed.
abbrev pub new_logger : Logger
new_logger = record {
  files = [];
  is_open = false;
  position = 0;
  log_config = record {
    host = default_upload_logs_url;
    secret_key = [];
    device_id = [];
    client_id = [];
  };
  last_log_time = 0;
  timer_interval = pos 5;
  is_debug = false;
}

-- `rename`: the new name's file, if there is one, is gone.
unfoldable pub rename : Text → Text → Map Text → Map Text
rename old new files = elim (find old files) [
  | none ↦ files
  | some content ↦ insert new content (erase old files)
]

-- `fopen(name, "a+")`
unfoldable pub open_append : Text → Map Text → Map Text
open_append name files = if contains name files then files else insert name [] files

unfoldable pub content_of : Text → Map Text → Text
content_of name files = elim (find name files) [ none ↦ [] | some content ↦ content ]

-- The three steps fclose, rename and fopen, with which write_log and send_pending_logs put the file
-- that they write to aside.
unfoldable pub put_aside : Moment → Logger → Logger
unfolding rename open_append
put_aside m l =
    let files = (if m.renamed then rename latest (pending_name m.file_date) l.files else l.files) in
    record l {
      files = if m.reopened then open_append latest files else files;
      is_open = m.reopened;
      position = 0;
    }

abbrev pub entry : Moment → Text → Text → Text
entry m type message =
    type ++ (codes " " ++ (m.date ++ (codes " ::: " ++ (message ++ newline ∷ []))))

-- More than 500 KB.
abbrev pub max_log_file_size : ℕ
max_log_file_size = 512000

unfoldable pub write_log : Moment → Text → Text → Logger → Logger
unfolding put_aside content_of
write_log m message type l =
    let content = content_of latest l.files ++ entry m type message in
    let written = record l { files = insert latest content l.files; position = length content } in
    if not l.is_open
    then l
    else if ltb max_log_file_size (length content)
    then put_aside m written
    else written

-- init_logger, given whether the directory is there or can be made.
unfoldable pub init_logger : Moment → Bool → Logger → Logger × Bool
unfolding open_append default_secret_key
init_logger m has_directory l =
    let started = record l { last_log_time = seconds_before m.now (twice_ℤ l.timer_interval) } in
    if not has_directory
    then (l, false)
    else if not m.reopened
    then (record started { is_open = false }, false)
    else (
      record started {
        files = open_append latest l.files;
        is_open = true;
        position = 0;
        log_config = record l.log_config { secret_key = default_secret_key };
      },
      true,
    )

unfoldable pub update_device_details : Text → Text → Bool → Logger → Logger
update_device_details device_id client_id debug l = record l {
  log_config = record l.log_config { device_id = device_id; client_id = client_id };
  is_debug = debug;
}

unfoldable pub update_log_config : Text → ℤ → Text → Logger → Logger
update_log_config secret_key time_interval log_url l =
    let key = (if eq_text secret_key [] then l.log_config.secret_key else secret_key) in
    record l {
      log_config = record l.log_config { secret_key = key; host = log_url };
      timer_interval = time_interval;
    }
