-- ===== src/Model/Location.antt =====
-- types_location.go.
use advanced_imessage_go.Prelude.{Bool, Option, ℕ}
use advanced_imessage_go.Prelude.Text.{GoString, bytes}
use advanced_imessage_go.Model.Common.{Float64, Time}

abbrev pub LocationType : Type 0
LocationType = GoString

abbrev pub location_legacy : LocationType
location_legacy = bytes "legacy"

abbrev pub location_live : LocationType
location_live = bytes "live"

abbrev pub location_shallow : LocationType
location_shallow = bytes "shallow"

abbrev pub location_unknown : LocationType
location_unknown = bytes "unknown"

pub record SharedFriendLocation : Type 0 where
  pub address : GoString
  pub name : GoString
  pub latitude : Option Float64
  pub longitude : Option Float64
  pub accuracy : Option Float64
  pub long_address : GoString
  pub short_address : GoString
  pub is_locating_in_progress : Bool
  pub location_type : LocationType
  pub location_timestamp : Option Time
  pub expires_at : Option Time

pub record LocationUpdate : Type 0 where
  pub location : SharedFriendLocation
  pub source_sequence : ℕ

pub record LocationRequestReceipt : Type 0 where
  pub address : GoString
  pub status : GoString
  pub reason : GoString
  pub message_guid : GoString
