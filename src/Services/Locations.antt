-- ===== src/Services/Locations.antt =====
-- locations.go: `LocationClient`.
pub mod Listing
use advanced_imessage_go.Prelude.{Ordering, List, Option, none, some, map}
use advanced_imessage_go.Prelude.Text.{GoString, compare_str}
use advanced_imessage_go.Prelude.Sort.{sort_func}
use advanced_imessage_go.ChatGuid.{ChatGuid}
use advanced_imessage_go.Errors.Chain.{ConnectText}
use advanced_imessage_go.Transport.Runtime.{Action, Outcome, Context}
use advanced_imessage_go.Model.Location.{
  SharedFriendLocation, LocationUpdate, LocationRequestReceipt,
}
use advanced_imessage_go.Model.MessageInput.{IdempotencyOptions}
use advanced_imessage_go.Wire.Common.{Timestamps, PbLocation, PbLocationPayload}
use advanced_imessage_go.Convert.Location.{shared_location_from_proto, location_update_from_proto}
use advanced_imessage_go.Convert.Outgoing.{given}
use advanced_imessage_go.Streams.{Frames, Opened, emitted}
use advanced_imessage_go.Services.{answered, client_message_id_of}

-- The generated `LocationServiceClient`; the last argument of a sharing
-- request is the client message id.
pub record LocationService (S : Type 0) : Type 0 where
  pub list_shared_locations : Context → Action S (Outcome (List (Option PbLocation)))
  pub get_shared_location : Context → GoString → Action S (Outcome (Option PbLocation))
  pub request_location_sharing :
      Context
      → ChatGuid
      → (address : GoString) → Option GoString
      → Action S (Outcome LocationRequestReceipt)
  pub watch_shared_locations :
      Context → (address : Option GoString) → Action S (Outcome (Frames PbLocationPayload))

-- `LocationWatchOptions`
pub record LocationWatchOptions : Type 0 where
  pub address : GoString

abbrev address_filter : Option LocationWatchOptions → Option GoString
address_filter none = none
address_filter (some opts) = given opts.address

abbrev pub compare_locations : SharedFriendLocation → SharedFriendLocation → Ordering
compare_locations a b = compare_str a.address b.address

unfoldable pub locations_from_proto :
    ⦃ts : Timestamps⦄ → List (Option PbLocation) → List SharedFriendLocation
locations_from_proto locs = sort_func compare_locations (map shared_location_from_proto locs)

module _ ⦃ct : ConnectText⦄ ⦃ts : Timestamps⦄ {S : Type 0} (svc : LocationService S)
    (ctx : Context) where
  unfoldable pub list : Action S (Outcome (List SharedFriendLocation))
  unfolding locations_from_proto
  list = answered locations_from_proto (svc.list_shared_locations ctx)

  unfoldable pub get : GoString → Action S (Outcome SharedFriendLocation)
  get address = answered shared_location_from_proto (svc.get_shared_location ctx address)

  unfoldable pub request :
      ChatGuid → GoString → Option IdempotencyOptions → Action S (Outcome LocationRequestReceipt)
  request chat address opts =
      answered (λ receipt. receipt)
        (svc.request_location_sharing ctx chat address (client_message_id_of opts))

  -- `Watch`, up to the call of `transport.Subscribe`.
  unfoldable pub watch : Option LocationWatchOptions → Opened S PbLocationPayload LocationUpdate
  watch opts = record {
    open_stream = svc.watch_shared_locations ctx (address_filter opts);
    convert = λ frame. emitted (location_update_from_proto frame);
  }
