-- ===== src/Services/Addresses.antt =====
-- addresses.go: `AddressClient`.
use advanced_imessage_go.Prelude.{Bool, Option}
use advanced_imessage_go.Prelude.Text.{GoString}
use advanced_imessage_go.Errors.Chain.{ConnectText}
use advanced_imessage_go.Transport.Runtime.{Action, Outcome, Context}
use advanced_imessage_go.Model.Common.{AddressInfo}
use advanced_imessage_go.Wire.Common.{MultiServiceAddressInfo}
use advanced_imessage_go.Convert.Common.{address_info_from_proto}
use advanced_imessage_go.Services.{answered}

-- The generated `AddressServiceClient`.
pub record AddressService (S : Type 0) : Type 0 where
  pub get_address_info : Context → GoString → Action S (Outcome (Option MultiServiceAddressInfo))
  pub get_focus_status : Context → GoString → Action S (Outcome Bool)
  pub get_imessage_availability : Context → GoString → Action S (Outcome Bool)

module _ ⦃ct : ConnectText⦄ {S : Type 0} (svc : AddressService S) (ctx : Context) where
  unfoldable pub get : GoString → Action S (Outcome AddressInfo)
  get address = answered address_info_from_proto (svc.get_address_info ctx address)

  unfoldable pub is_focus_silenced : GoString → Action S (Outcome Bool)
  is_focus_silenced address = answered (λ silenced. silenced) (svc.get_focus_status ctx address)

  unfoldable pub is_imessage_available : GoString → Action S (Outcome Bool)
  is_imessage_available address =
      answered (λ available. available) (svc.get_imessage_availability ctx address)
