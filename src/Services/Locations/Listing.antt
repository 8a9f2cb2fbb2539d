-- ===== src/Services/Locations/Listing.antt =====
-- What `LocationClient.List` of locations.go returns.
use mathlib.Core.List.{Permᴰ}
use advanced_imessage_go.Prelude.{List, Option, map, ◌≡◌, ◌∙◌, ap, sym, arith}
use advanced_imessage_go.Prelude.Sort.{IsComparison, AreDistinct, sort_func_of_perm}
use advanced_imessage_go.Prelude.Order.{compare_str-IsComparison, on-IsComparison}
use advanced_imessage_go.Prelude.Ordered.{StrLe, IsOrdered, compare_str-StrLe}
use advanced_imessage_go.Prelude.Text.{compare_str}
use advanced_imessage_go.Errors.Chain.{ConnectText}
use advanced_imessage_go.Transport.Runtime.{ok, Context}
use advanced_imessage_go.Model.Location.{SharedFriendLocation}
use advanced_imessage_go.Wire.Common.{Timestamps, PbLocation}
use advanced_imessage_go.Convert.Location.{shared_location_from_proto}
use advanced_imessage_go.Convert.Content.Sorted.{sort_func-IsSortedCopy, map-perm}
use advanced_imessage_go.Services.{answered}
use advanced_imessage_go.Services.Locations.{
  LocationService, compare_locations, locations_from_proto, list,
}

compare_locations-IsComparison : IsComparison compare_locations
compare_locations-IsComparison =
    on-IsComparison (λ l. l.address) compare_str compare_str-IsComparison

module _ ⦃ct : ConnectText⦄ ⦃ts : Timestamps⦄ {S : Type 0} (svc : LocationService S)
    (ctx : Context) where
  list_lem :
      {locs : List (Option PbLocation)} {s s' : S}
      → svc.list_shared_locations ctx s ≡ (ok locs, s')
      → list svc ctx s ≡ (ok (locations_from_proto locs), s')
  unfolding list answered
  list_lem reply = ground arith

  -- Where the server answers with `locs`, `List` succeeds and returns their conversions, each as
  -- often, in the byte order of their addresses.
  pub list_sorted :
      {locs : List (Option PbLocation)} {s s' : S}
      → svc.list_shared_locations ctx s ≡ (ok locs, s')
      → (out : List SharedFriendLocation) × (list svc ctx s ≡ (ok out, s'))
        × IsOrdered (λ a b. StrLe a.address b.address) out
        × Permᴰ out (map shared_location_from_proto locs)
  unfolding locations_from_proto
  list_sorted {locs} reply =
      let (ordered, copy) =
        sort_func-IsSortedCopy compare_locations compare_locations-IsComparison
          (λ a b. StrLe a.address b.address) (λ a b. compare_str-StrLe a.address b.address)
          (map shared_location_from_proto locs) in
      (locations_from_proto locs, list_lem reply, ordered, copy)

  -- If no two of the locations have one address, `List` returns the same list where the server
  -- answers with the same locations in another order.
  pub list_of_perm :
      {locs others : List (Option PbLocation)} {s s' t t' : S}
      → svc.list_shared_locations ctx s ≡ (ok locs, s')
      → svc.list_shared_locations ctx t ≡ (ok others, t')
      → Permᴰ locs others
      → AreDistinct compare_locations (map shared_location_from_proto locs)
      → (list svc ctx s).0 ≡ (list svc ctx t).0
  unfolding locations_from_proto
  list_of_perm reply other p distinct =
      ap (λ r. r.0) (list_lem reply)
      ∙ (ap ok (
            sort_func_of_perm compare_locations compare_locations-IsComparison
              (map-perm shared_location_from_proto p) distinct)
          ∙ sym (ap (λ r. r.0) (list_lem other)))
