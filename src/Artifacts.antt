-- ===== src/Artifacts.antt =====
-- scripts/artifact_snapshot.py: capture of the compiled modules, and the copy that the comparator reads.
pub mod Acceptance
pub mod Frozen
use leansphincs.Base.{
  ℕ, zero, suc, ◌+◌, ◌*◌, ◌-◌, String, ◌<>◌, Bool, true, false, not, ◌&&◌, ◌||◌, Option, none, some,
  List, [], ◌∷◌, ◌++◌, codes, ltb, min, ◌==◌, if◌then◌else◌, length, Result, ok, err, value_error,
  runtime_error, ◌>>=◌, ◌>>◌, raise_if,
}
use leansphincs.Base.Sort.{sort}
use leansphincs.Base.Names.{name_le}
use leansphincs.Base.Value.{str_mem}
use leansphincs.Bundle.{
  Opened, Folder, Bundle, read, has_all_names, write_all, manifest, Manifest, FileEntry,
}
use leansphincs.Bundle.Names.{is_word_start, is_word}

-- `SUFFIXES`
abbrev pub suffixes : List String
suffixes =
    ".olean" ∷ ".olean.private" ∷ ".olean.server" ∷ ".ilean" ∷ ".olean.hash" ∷ ".ilean.hash"
    ∷ ".trace" ∷ []

abbrev pub max_artifact : ℕ
max_artifact = 256 * 1024 * 1024

abbrev pub max_artifacts : ℕ
max_artifacts = 2 * 1024 * 1024 * 1024

-- `c.isidentifier() and c.isascii()`
abbrev pub all_word : List ℕ → Bool
all_word [] = true
all_word (c ∷ cs) = is_word c && all_word cs

unfoldable pub is_identifier : List ℕ → Bool
is_identifier [] = false
is_identifier (c ∷ cs) = is_word_start c && all_word cs

abbrev pub all_identifiers : List String → Bool
all_identifiers [] = true
all_identifiers (c ∷ cs) = is_identifier (codes c) && all_identifiers cs

abbrev pub with_suffixes : String → List String → List String
with_suffixes m [] = []
with_suffixes m (suffix ∷ rest) = (m <> suffix) ∷ with_suffixes m rest

-- `{m + suffix for m in modules for suffix in SUFFIXES}`
unfoldable pub allowed : List String → List String
allowed [] = []
allowed (m ∷ ms) = with_suffixes m suffixes ++ allowed ms

-- `set(modules) & {"Scheme", "Solution"}`
unfoldable pub default_required : List String → List String
default_required [] = []
default_required (m ∷ ms) =
    let rest = default_required ms in
    if str_mem m ("Scheme" ∷ "Solution" ∷ []) then m ∷ rest else rest

abbrev pub required_of : List String → Option (List String) → List String
required_of modules none = default_required modules
required_of modules (some required) = required

unfoldable pub oleans : List String → List String
oleans [] = []
oleans (m ∷ ms) = (m <> ".olean") ∷ oleans ms

-- The body of the loop behind the open, with the total so far.
unfoldable pub read_artifact : ℕ → Opened → Result (List ℕ)
read_artifact total info = do
  raise_if (not info.regular || ltb max_artifact info.st_size)
      (runtime_error "invalid artifact type or size")
  let bytes = read (min max_artifact (max_artifacts - total) + 1) info.contents
  raise_if (ltb max_artifact (length bytes) || ltb max_artifacts (total + length bytes))
      (runtime_error "artifact size cap exceeded")
  ok bytes

unfoldable pub read_artifacts : (String → Result Opened) → ℕ → List String → Result Bundle
read_artifacts open_at total [] = ok []
read_artifacts open_at total (name ∷ names) = do
  info ← open_at name
  bytes ← read_artifact total info
  rest ← read_artifacts open_at (total + length bytes) names
  ok ((name, bytes) ∷ rest)

-- `root` is the result of opening `.lake/build/lib/lean` and the components of the prefix below the
-- project, none of them a link. `prefix` is split at its dots.
unfoldable pub capture_artifacts :
    Result Folder → List String → List String → Option (List String) → Result Bundle
capture_artifacts root modules prefix required_modules = do
  raise_if (not (all_identifiers prefix)) (value_error "invalid organizer module prefix")
  folder ← root
  raise_if (not (has_all_names folder.names (allowed modules)))
      (runtime_error "unexpected module artifact paths")
  let required = required_of modules required_modules
  raise_if (not (has_all_names required modules))
      (value_error "required modules outside source manifest")
  raise_if (not (has_all_names (oleans required) folder.names))
      (runtime_error "missing compiled modules")
  read_artifacts folder.open_at 0 (sort name_le folder.names)

-- What the destination holds after the copy, and the manifest. `present` is what it held before.
unfoldable pub freeze_artifacts :
    (List ℕ → String)
    → (List (String × FileEntry) → List ℕ)
    → Result Folder
    → Bundle
    → List String
    → List String
    → Option (List String)
    → Result (Bundle × Manifest)
freeze_artifacts sha256 encode root present modules prefix required_modules = do
  bundle ← capture_artifacts root modules prefix required_modules
  files ← write_all bundle present
  ok (files, manifest sha256 encode bundle)
