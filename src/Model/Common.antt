-- ===== src/Model/Common.antt =====
-- types_common.go, and what stands for times and floating-point numbers.
use advanced_imessage_go.Prelude.{List, ℕ}
use advanced_imessage_go.Prelude.Int.{pos, ℤ}
use advanced_imessage_go.Prelude.Text.{GoString, bytes}

abbrev pub ChatServiceType : Type 0
ChatServiceType = GoString

abbrev pub service_imessage : ChatServiceType
service_imessage = bytes "iMessage"

abbrev pub service_sms : ChatServiceType
service_sms = bytes "SMS"

abbrev pub service_rcs : ChatServiceType
service_rcs = bytes "RCS"

abbrev pub service_unknown : ChatServiceType
service_unknown = bytes "unknown"

pub record Handle : Type 0 where
  pub address : GoString
  pub service : ChatServiceType
  pub country : GoString

pub record AddressInfo : Type 0 where
  pub address : GoString
  pub services : List ChatServiceType
  pub country : GoString

-- `time.Time`: the instant, in nanoseconds since the zero value of the type.
abbrev pub Time : Type 0
Time = ℤ

abbrev pub zero_time : Time
zero_time = pos 0

-- `float64`, by its bits: the client only hands such values on.
abbrev pub Float64 : Type 0
Float64 = ℕ
