-- ===== src/Meter/Weight.antt =====
-- What `hash_weight` charges: the least number of units that cover the input.
use leansphincs.Base.{ℕ, ◌+◌, ◌*◌, ◌≤◌, ◌<◌, ◌≡◌, refl, ap, ◌↔◌, arith, ok, ok-injective}
use leansphincs.Base.Int.{pos}
use leansphincs.Base.Value.{Value, int}
use leansphincs.Meter.{hash_weight, meter_metadata}

weight_sound :
    (v : Value) (w : ℕ)
    → hash_weight v ≡ ok w
    → (n : ℕ) × (v ≡ int (pos n)) × (n ≤ 64 * w) × (64 * w < n + 64)
unfolding hash_weight
weight_sound (int (pos n)) w h = let e = ok-injective _ w h in (n, refl, omega arith, omega arith)
weight_sound _ w h = cc

weight_complete : (n w : ℕ) → n ≤ 64 * w → 64 * w < n + 64 → hash_weight (int (pos n)) ≡ ok w
unfolding hash_weight
weight_complete n w lo hi = ap ok (omega arith)

-- `hash_weight` answers exactly on the nonnegative integers, and then with the least number `w` of
-- units of the published size that cover the input; on all other values it raises.
pub hash_weight_iff :
    (v : Value) (w : ℕ)
    → (hash_weight v ≡ ok w) ↔ (
        (n : ℕ) × (v ≡ int (pos n))
        × (n ≤ meter_metadata.input_unit * w)
        × (meter_metadata.input_unit * w < n + meter_metadata.input_unit))
hash_weight_iff v w = (weight_sound v w, λ (n, e, lo, hi). rw e (weight_complete n w lo hi))
