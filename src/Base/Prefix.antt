-- ===== src/Base/Prefix.antt =====
-- `str.startswith` and `str.removeprefix` on texts that are put together from known and unknown parts.
use Prim.Native.Char.{code}
use Prim.Native.String.append
use Prim.Native.String.{String, ◌++◌ as ◌<>◌}
use mathlib.Core.Path.{◌≡◌, refl, ◌∙◌, ap}
use mathlib.Core.Bool.{Bool, true, false, ◌&&◌}
use native.Mathlib.Omega.{arith}
use leansphincs.Base.Tests.{◌==◌, if◌then◌else◌}

unfoldable pub starts_with : String → String → Bool
starts_with String.[] s = true
starts_with (String.◌∷◌ c p) String.[] = false
starts_with (String.◌∷◌ c p) (String.◌∷◌ d s) = code c == code d && starts_with p s

-- The rest behind as many characters as the prefix has.
drop : String → String → String
drop String.[] s = s
drop (String.◌∷◌ c p) String.[] = String.[]
drop (String.◌∷◌ c p) (String.◌∷◌ d s) = drop p s

unfoldable pub remove_prefix : String → String → String
unfolding drop
remove_prefix p s = if starts_with p s then drop p s else s

pub starts_with-append : (p s : String) → starts_with p (p <> s) ≡ true
unfolding starts_with
starts_with-append String.[] s = refl
starts_with-append (String.◌∷◌ c p) s =
    ap (starts_with (String.◌∷◌ c p)) (append.cons c p s) ∙ ground (arith, starts_with-append p s)

drop-append : (p s : String) → drop p (p <> s) ≡ s
unfolding drop
drop-append String.[] s = append.nil s
drop-append (String.◌∷◌ c p) s = ap (drop (String.◌∷◌ c p)) (append.cons c p s) ∙ drop-append p s

pub remove_prefix-append : (p s : String) → remove_prefix p (p <> s) ≡ s
unfolding remove_prefix
remove_prefix-append p s = rw (starts_with-append p s) (drop-append p s)
