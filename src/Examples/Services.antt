-- ===== src/Examples/Services.antt =====
-- Calls of the chat and location services.
use mathlib.Core.List.{Permᴰ}
use advanced_imessage_go.Prelude.{List, [], ◌∷◌, map, false, Option, none, some, ◌≡◌, refl}
use advanced_imessage_go.Prelude.Text.{GoString, bytes}
use advanced_imessage_go.Prelude.Int.{pos}
use advanced_imessage_go.Errors.Chain.{nil, ConnectText}
use advanced_imessage_go.Transport.Runtime.{Context, ok}
use advanced_imessage_go.Model.Location.{SharedFriendLocation}
use advanced_imessage_go.Wire.Common.{Timestamps, PbLocation, PbLocationType}
use advanced_imessage_go.Convert.Location.{shared_location_from_proto}
use advanced_imessage_go.Prelude.Ordered.{StrLe, IsOrdered}
use advanced_imessage_go.Services.Locations.{LocationService, list}
use advanced_imessage_go.Services.Locations.Listing.{list_sorted}

abbrev texts : ConnectText
texts = record { code_text = λ c. bytes "status"; error_text = λ c m. m }

abbrev clock : Timestamps
clock = record {
  as_time = λ t. t.seconds;
  new_timestamp = λ t. record { seconds = t; nanos = pos 0 };
}

abbrev context : Context
context = record { deadline = none; scope = 0 }

abbrev location_of : GoString → Option PbLocation
location_of address = some (record {
  address = address;
  name = [];
  long_address = [];
  short_address = [];
  is_locating_in_progress = false;
  location_type = PbLocationType.live;
  location_timestamp = none;
  expires_at = none;
  latitude = none;
  longitude = none;
  accuracy = none;
})

abbrev here : List (Option PbLocation)
here = location_of (bytes "b") ∷ location_of (bytes "a") ∷ []

-- A location service whose state is the list that it answers with.
abbrev locations : LocationService (List (Option PbLocation))
locations = record {
  list_shared_locations = λ ctx s. (ok s, s);
  get_shared_location = λ ctx address s. (ok none, s);
  request_location_sharing = λ ctx chat address key s.
      (ok (record { address = address; status = []; reason = []; message_guid = [] }), s);
  watch_shared_locations = λ ctx address s. (ok ([], nil), s);
}

list_sorted_example :
    (out : List SharedFriendLocation) × (list ⦃ct = texts⦄ ⦃ts = clock⦄ locations context here
      ≡ (ok out, here))
    × IsOrdered (λ a b. StrLe a.address b.address) out
    × Permᴰ out (map (shared_location_from_proto ⦃ts = clock⦄) here)
list_sorted_example =
    list_sorted ⦃ct = texts⦄ ⦃ts = clock⦄ locations context {locs = here} {s = here} {s' = here}
      refl
