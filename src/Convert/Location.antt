-- ===== src/Convert/Location.antt =====
-- conv_location.go.
use advanced_imessage_go.Prelude.{[], false, Option, none, some}
use advanced_imessage_go.Model.Location.{SharedFriendLocation, LocationUpdate}
use advanced_imessage_go.Wire.Common.{Timestamps, PbLocation, PbLocationPayload}
use advanced_imessage_go.Convert.Common.{
  if_present, time_ptr_from_proto, ptr_float, location_type_from_proto,
}

module _ ⦃ts : Timestamps⦄ where
  unfoldable pub shared_location_from_proto : Option PbLocation → SharedFriendLocation
  shared_location_from_proto none = record {
    address = [];
    name = [];
    latitude = none;
    longitude = none;
    accuracy = none;
    long_address = [];
    short_address = [];
    is_locating_in_progress = false;
    location_type = [];
    location_timestamp = none;
    expires_at = none;
  }
  shared_location_from_proto (some pb) = record {
    address = pb.address;
    name = pb.name;
    latitude = if_present ptr_float pb.latitude;
    longitude = if_present ptr_float pb.longitude;
    accuracy = if_present ptr_float pb.accuracy;
    long_address = pb.long_address;
    short_address = pb.short_address;
    is_locating_in_progress = pb.is_locating_in_progress;
    location_type = location_type_from_proto pb.location_type;
    location_timestamp = time_ptr_from_proto pb.location_timestamp;
    expires_at = time_ptr_from_proto pb.expires_at;
  }

  -- `none` is a frame that is dropped.
  unfoldable pub location_update_from_proto : PbLocationPayload → Option LocationUpdate
  location_update_from_proto (PbLocationPayload.location_updated l n) =
      some (record { location = shared_location_from_proto l; source_sequence = n })
  location_update_from_proto PbLocationPayload.other_payload = none
