-- ===== src/UserEvents/Structs.antt =====
-- nimblenet/UserEvents/UserEventsManager/include/UserEventsStruct.h. Timestamps are seconds since
-- the epoch, and a rolling window's length is in whole seconds (a difference of two timestamps
-- exceeds a fractional length exactly when it exceeds the length's whole part).
use nimble_sdk.Prelude.{ℕ, Bool, List, Text}
use nimble_sdk.Prelude.Map.{Map}

pub record ModelInput (T : Type 0) : Type 0 where
  pub length : ℕ
  pub values : List T

pub record TableInfo : Type 0 where
  pub valid : Bool
  pub name : Text
  pub schema : Map Text
  pub expiry_time_in_mins : ℕ

pub record PreProcessorInfo (T : Type 0) : Type 0 where
  pub rolling_windows_in_secs : List ℕ
  pub columns_to_aggregate : List Text
  pub aggregate_operators : List Text
  pub group_columns : List Text
  pub default_vector : List T
  pub table_name : Text
  pub valid : Bool

pub record TableEvent : Type 0 where
  pub groups : List Text
  pub timestamp : ℕ
  pub row : List Text

pub record TableRow : Type 0 where
  pub timestamp : ℕ
  pub row : Map Text
