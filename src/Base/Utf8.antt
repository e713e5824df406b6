-- ===== src/Base/Utf8.antt =====
-- `bytes.decode("utf-8", errors="strict")`: the byte sequences that decode.
use Prim.Native.Nat.{ℕ, zero, suc}
use mathlib.Core.Bool.{Bool, true, false, ◌&&◌}
use mathlib.Core.Option.{Option, none, some}
use mathlib.Core.List.{List, [], ◌∷◌}
use leansphincs.Base.Tests.{ltb, leb, ◌==◌, if◌then◌else◌}

-- Between characters, or waiting for a byte in a range with so many more behind it.
pub data Pending : Type 0 where
  start : Pending
  need : (lo hi more : ℕ) → Pending

abbrev pub in_range : ℕ → ℕ → ℕ → Bool
in_range lo hi b = leb lo b && leb b hi

-- What a first byte asks for. Overlong forms, surrogates and what lies beyond U+10FFFF are excluded
-- by the range of the second byte.
pub first_byte : ℕ → Option Pending
first_byte b =
    if ltb b 0x80
    then some start
    else if in_range 0xc2 0xdf b
    then some (need 0x80 0xbf 0)
    else if b == 0xe0
    then some (need 0xa0 0xbf 1)
    else if b == 0xed
    then some (need 0x80 0x9f 1)
    else if in_range 0xe1 0xef b
    then some (need 0x80 0xbf 1)
    else if b == 0xf0
    then some (need 0x90 0xbf 2)
    else if in_range 0xf1 0xf3 b
    then some (need 0x80 0xbf 2)
    else if b == 0xf4
    then some (need 0x80 0x8f 2)
    else none

next_byte : Pending → ℕ → Option Pending
unfolding first_byte
next_byte start b = first_byte b
next_byte (need lo hi zero) b = if in_range lo hi b then some start else none
next_byte (need lo hi (suc more)) b = if in_range lo hi b then some (need 0x80 0xbf more) else none

-- The bytes end between two characters.
unfoldable pub utf8_from : Pending → List ℕ → Bool
unfolding next_byte
utf8_from start [] = true
utf8_from (need lo hi more) [] = false
utf8_from p (b ∷ bytes) = elim (next_byte p b) [ none ↦ false | some q ↦ utf8_from q bytes ]
