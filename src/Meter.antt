-- ===== src/Meter.antt =====
-- scripts/oracle_meter.py: the host-side description of the oracle's price.
pub mod Weight
use leansphincs.Base.{ℕ, ◌+◌, ◌-◌, ◌/◌, String, Bool, true, Result, ok, err, value_error}
use leansphincs.Base.Int.{pos}
use leansphincs.Base.Value.{Value, int}

-- `METER_ID`
abbrev pub meter_id : String
meter_id = "rom256-input64-ceil-v1"

abbrev pub input_unit_bytes : ℕ
input_unit_bytes = 64

abbrev pub output_bytes : ℕ
output_bytes = 32

unfoldable pub hash_weight : Value → Result ℕ
hash_weight (int (pos input_bytes)) = ok ((input_bytes + input_unit_bytes - 1) / input_unit_bytes)
hash_weight _ = err (value_error "input length must be a nonnegative integer number of bytes")

pub record MeterMetadata : Type 0 where
  pub id : String
  pub input_unit : ℕ
  pub output : ℕ
  pub rounding : String
  pub empty_input_cost : ℕ
  pub domain_separation_bytes_charged : Bool

abbrev pub meter_metadata : MeterMetadata
meter_metadata = record {
  id = meter_id;
  input_unit = input_unit_bytes;
  output = output_bytes;
  rounding = "ceil";
  empty_input_cost = 0;
  domain_separation_bytes_charged = true;
}
