-- ===== src/Base/Value.antt =====
-- Values of the dynamic language: what `json.loads` returns, and the tests the scripts make on it.
use Prim.Native.String.{String}
use mathlib.Core.Bool.{Bool, true, false, ◌&&◌, ◌||◌}
use mathlib.Core.Option.{Option, none, some}
use mathlib.Core.List.{List, [], ◌∷◌}
use text.Mathlib.Text.{◌==◌ as str_eq}
use leansphincs.Base.Int.{ℤ}
use leansphincs.Base.Tests.{if◌then◌else◌}

-- A dict holds its items in insertion order. A float is kept as its literal.
mutual
  pub data Value : Type 0 where
    obj : Fields → Value
    arr : Items → Value
    str : String → Value
    int : ℤ → Value
    bool : Bool → Value
    float : String → Value
    null : Value

  pub data Fields : Type 0 where
    field : (key : String) → Value → Fields → Fields
    end : Fields

  pub data Items : Type 0 where
    cons : (first : Value) → Items → Items
    nil : Items

-- A list value as a list.
abbrev pub items : Items → List Value
items nil = []
items (cons v vs) = v ∷ items vs

-- `d.get(key)`
abbrev pub field? : String → Fields → Option Value
field? key end = none
field? key (field k v fs) = if str_eq key k then some v else field? key fs

-- `key in d`
abbrev pub has_field : String → Fields → Bool
has_field key end = false
has_field key (field k v fs) = str_eq key k || has_field key fs

abbrev pub str_mem : String → List String → Bool
str_mem s [] = false
str_mem s (t ∷ ts) = str_eq s t || str_mem s ts

-- `set(d) <= names`
abbrev pub keys_within : Fields → List String → Bool
keys_within end names = true
keys_within (field k v fs) names = str_mem k names && keys_within fs names

-- `names <= set(d)`
abbrev pub has_all : List String → Fields → Bool
has_all [] fs = true
has_all (n ∷ ns) fs = has_field n fs && has_all ns fs

-- `set(d) == set(names)`
abbrev pub keys_eq : Fields → List String → Bool
keys_eq fs names = keys_within fs names && has_all names fs

-- `v == text`, for a text
abbrev pub is_text : Value → String → Bool
is_text (str s) t = str_eq s t
is_text _ t = false
