-- ===== src/Ots/Cost.antt =====
-- `hash_cost` of scripts/ots_experiments.py: what one hash of so many 16-byte blocks costs.
use text.Mathlib.Text.{◌==◌ as str_eq}
use leansphincs.Base.{
  ℕ, ◌+◌, ◌*◌, ◌/◌, ◌≤◌, ◌<◌, ◌≡◌, String, arith, ltb, if◌then◌else◌, Result, ok, err, value_error,
  ◌>>◌, raise_if,
}
use leansphincs.Base.Int.{pos}
use leansphincs.Base.Value.{int}
use leansphincs.Meter.{hash_weight}

-- The choice of the profile.
unfoldable pub profile_cost : ℕ → String → Result ℕ
profile_cost blocks profile =
    if str_eq profile "paper"
    then ok ((blocks + 3) / 4)
    else if str_eq profile "rom32"
    then ok ((16 + 16 * blocks + 31) / 32)
    else if str_eq profile "rom32-input64"
    then hash_weight (int (pos (16 + 16 * blocks)))
    else err (value_error "unknown oracle profile")

unfoldable pub hash_cost : ℕ → String → Result ℕ
unfolding profile_cost
hash_cost blocks profile = do
  raise_if (ltb blocks 1) (value_error "these graph families require nonempty inputs")
  profile_cost blocks profile

-- The unit of a profile, and the bytes that it charges for so many blocks.
pub record Tariff : Type 0 where
  pub unit : ℕ
  pub header : ℕ

abbrev pub tariff : String → Tariff
tariff profile =
    if str_eq profile "paper"
    then record { unit = 64; header = 0 }
    else if str_eq profile "rom32"
    then record { unit = 32; header = 16 }
    else record { unit = 64; header = 16 }

-- `w` units just cover the bytes of the blocks and of the header.
abbrev pub Covers : Tariff → ℕ → ℕ → Type 0
Covers t blocks w =
    (t.header + 16 * blocks ≤ t.unit * w) × (t.unit * w < t.header + 16 * blocks + t.unit)

-- Every cost is at least one, and is the least number of units of the profile that cover the blocks
-- and the address that the profile adds.
pub hash_cost-Covers :
    (blocks : ℕ) (profile : String) (w : ℕ)
    → hash_cost blocks profile ≡ ok w
    → (1 ≤ w) × Covers (tariff profile) blocks w
unfolding hash_cost hash_weight
hash_cost-Covers blocks profile w h = ground arith
