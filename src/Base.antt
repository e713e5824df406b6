-- ===== src/Base.antt =====
-- Names, types and lemmas that the models of scripts/*.py share. No code of its own, but the
-- Python builtins that several scripts use: integers, text, exceptions, decimal numerals.
pub mod Tests
pub mod Lists
pub mod Int
pub mod Errors
pub mod Text
pub mod Prefix
pub mod Order
pub mod Sort
pub mod Names
pub mod Utf8
pub mod Gcd
pub mod Decimal
pub mod Value
pub mod Fraction
pub use Prim.Native.Nat.{ℕ, zero, suc, ◌+◌, ◌-◌, ◌*◌, ◌/◌, ◌%◌, ◌^◌, ◌≤◌, ◌<◌, min, max}
pub use Prim.Native.String.{String, ◌++◌ as ◌<>◌}
pub use mathlib.Core.Path.{◌≡◌, refl, sym, subst, ap, ap₂, ◌∙◌, ◌≡⟨◌⟩◌, ◌∎}
pub use mathlib.Core.Logic.{◌≢◌, ◌↔◌, ◌⊎◌, inl, inr}
pub use mathlib.Core.Bool.{Bool, true, false, not, ◌&&◌, ◌||◌}
pub use mathlib.Core.Option.{Option, none, some}
pub use mathlib.Core.List.{List, [], ◌∷◌, ◌++◌, map, append_assoc, append-nil}
pub use native.Mathlib.Omega.{arith}
pub use Tests.*
pub use Lists.*
pub use Errors.*
pub use Text.*
