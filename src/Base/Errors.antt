-- ===== src/Base/Errors.antt =====
-- Python exceptions as values. The constructors are the classes that the scripts tell apart.
use Prim.Native.String.{String}
use mathlib.Core.Path.{◌≡◌, refl}
use mathlib.Core.Bool.{Bool, true, false}

pub data Exception : Type 0 where
  value_error : String → Exception
  runtime_error : String → Exception
  os_error : String → Exception
  subprocess_error : String → Exception
  worker_busy : String → Exception
  keyboard_interrupt : String → Exception
  recursion_error : String → Exception
  type_error : String → Exception
  index_error : String → Exception
  key_error : String → Exception
  attribute_error : String → Exception

pub data Result {ℓ} (A : Type ℓ) : Type ℓ where
  ok : A → Result A
  err : Exception → Result A

infixl 5 ◌>>=◌ ◌>>◌
-- What follows a step runs on its value, and an exception passes it by.
abbrev pub ◌>>=◌ {ℓ κ} : {A : Type ℓ} {B : Type κ} → Result A → (A → Result B) → Result B
err raised >>= rest = err raised
ok value >>= rest = rest value

abbrev pub ◌>>◌ {ℓ} : {A : Type ℓ} → Result (Unit {0}) → Result A → Result A
err raised >> rest = err raised
ok done >> rest = rest

-- `if c: raise e`
abbrev pub raise_if : Bool → Exception → Result (Unit {0})
raise_if true e = err e
raise_if false e = ok tt

-- A block that returns has a first step that returned.
module _ {ℓ κ} {A : Type ℓ} {B : Type κ} where
  pub bind-eq-ok :
      (first : Result A) (rest : A → Result B) {result : B}
      → (first >>= rest) ≡ ok result
      → (value : A) × (first ≡ ok value) × (rest value ≡ ok result)
  bind-eq-ok (err raised) rest e = cc
  bind-eq-ok (ok value) rest e = (value, refl, e)

pub ok-injective {ℓ} : {A : Type ℓ} (a b : A) → ok a ≡ ok b → a ≡ b
ok-injective a b h = cc

-- What a passed check and the code behind it say.
pub raise_if_then {ℓ} :
    {A : Type ℓ} (c : Bool) (e : Exception) (m : Result A) {a : A}
    → (raise_if c e >> m) ≡ ok a
    → (c ≡ false) × (m ≡ ok a)
raise_if_then true e m h = cc
raise_if_then false e m h = (refl, h)

pub then-eq-ok {ℓ} :
    {A : Type ℓ} (first : Result (Unit {0})) (rest : Result A) {a : A}
    → (first >> rest) ≡ ok a
    → (first ≡ ok tt) × (rest ≡ ok a)
then-eq-ok (ok done) rest h = (refl, h)
then-eq-ok (err raised) rest h = cc
