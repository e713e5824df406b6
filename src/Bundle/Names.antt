-- ===== src/Bundle/Names.antt =====
-- The file names that scripts/source_bundle.py admits, by their code points.
use leansphincs.Base.{ℕ, Bool, true, false, ◌&&◌, ◌||◌, List, [], ◌∷◌, codes, leb, ◌==◌}

-- `[A-Za-z_]`
unfoldable pub is_word_start : ℕ → Bool
is_word_start c = (leb b'A' c && leb c b'Z') || ((leb b'a' c && leb c b'z') || c == b'_')

-- `[A-Za-z0-9_]`
unfoldable pub is_word : ℕ → Bool
unfolding is_word_start
is_word c = is_word_start c || (leb b'0' c && leb c b'9')

abbrev pub codes_eq : List ℕ → List ℕ → Bool
codes_eq [] [] = true
codes_eq (c ∷ r) (d ∷ s) = c == d && codes_eq r s
codes_eq _ _ = false

-- `name.endswith(".lean")`
unfoldable pub ends_with_lean : List ℕ → Bool
ends_with_lean [] = false
ends_with_lean (c ∷ cs) = codes_eq (c ∷ cs) (codes ".lean") || ends_with_lean cs

-- `[A-Za-z0-9_]*\.lean`
unfoldable pub is_module_tail : List ℕ → Bool
unfolding is_word
is_module_tail [] = false
is_module_tail (c ∷ cs) = codes_eq (c ∷ cs) (codes ".lean") || (is_word c && is_module_tail cs)

-- `re.fullmatch(r"[A-Za-z_][A-Za-z0-9_]*\.lean", name)`
unfoldable pub is_module_name : List ℕ → Bool
unfolding is_module_tail
is_module_name [] = false
is_module_name (c ∷ cs) = is_word_start c && is_module_tail cs
