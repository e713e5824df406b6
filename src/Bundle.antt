-- ===== src/Bundle.antt =====
-- scripts/source_bundle.py: capture of a submission's bytes, its manifest, and its private copy.
pub mod Names
pub mod Capture
pub mod Acceptance
pub mod Copy
pub mod Listing
pub mod Binding
use leansphincs.Base.{
  ℕ, zero, suc, ◌+◌, ◌*◌, String, ◌<>◌, Bool, true, false, not, ◌&&◌, ◌||◌, Option, none, some,
  List, [], ◌∷◌, ◌++◌, codes, ltb, ◌==◌, if◌then◌else◌, length, Result, ok, err, value_error,
  os_error, ◌>>=◌, ◌>>◌, raise_if,
}
use text.Mathlib.Text.{◌==◌ as str_eq}
use leansphincs.Base.Sort.{sort}
use leansphincs.Base.Names.{name_le}
use leansphincs.Base.Value.{str_mem}
use leansphincs.Base.Utf8.{utf8_from, start}
use Names.{is_module_name, ends_with_lean}

-- `REQUIRED`
abbrev pub required : List String
required = "Scheme.lean" ∷ "Solution.lean" ∷ "sigma.txt" ∷ "hverify.txt" ∷ "bound.txt" ∷ []

abbrev pub max_file : ℕ
max_file = 4 * 1024 * 1024

abbrev pub max_total : ℕ
max_total = 10 * 1024 * 1024

-- What a no-follow, non-blocking open of a name gives: the `fstat` and the bytes behind it.
pub record Opened : Type 0 where
  pub regular : Bool
  pub st_size : ℕ
  pub contents : List ℕ

-- A directory that is open: the names that `scandir` yields, and the opens relative to it. A symlink
-- and a vanished file are opens that raise.
pub record Folder : Type 0 where
  pub names : List String
  pub open_at : String → Result Opened

abbrev pub Bundle : Type 0
Bundle = List (String × List ℕ)

-- `stream.read(n)`
unfoldable pub read : ℕ → List ℕ → List ℕ
read n [] = []
read zero (b ∷ bytes) = []
read (suc n) (b ∷ bytes) = b ∷ read n bytes

-- `REQUIRED.issubset(names)`
abbrev pub has_all_names : List String → List String → Bool
has_all_names [] names = true
has_all_names (r ∷ rs) names = str_mem r names && has_all_names rs names

-- `sorted(REQUIRED - set(names))`
missing : List String → List String → List String
missing [] names = []
missing (r ∷ rs) names = let rest = missing rs names in if str_mem r names then rest else r ∷ rest

join : List String → String
join [] = ""
join (n ∷ []) = n
join (n ∷ m ∷ ns) = n <> (", " <> join (m ∷ ns))

unfoldable pub has_nul : List ℕ → Bool
has_nul [] = false
has_nul (b ∷ bytes) = b == 0 || has_nul bytes

-- The decoding of a Lean file. A NUL in the text is a NUL byte.
unfoldable pub check_text : String → List ℕ → Result (Unit {0})
check_text name bytes =
    if ends_with_lean (codes name)
    then (raise_if (not (utf8_from start bytes)) (value_error "'utf-8' codec can't decode")
        >> raise_if (has_nul bytes) (value_error (name <> ": NUL is not admitted")))
    else ok tt

-- The body of the loop behind the open.
unfoldable pub read_checked : ℕ → String → Opened → Result (List ℕ)
read_checked total name info = do
  raise_if (not info.regular) (value_error (name <> ": only regular files are admitted"))
  raise_if (ltb max_file info.st_size) (value_error (name <> ": exceeds 4 MiB"))
  let bytes = read (max_file + 1) info.contents
  raise_if (ltb max_file (length bytes)) (value_error (name <> ": exceeds 4 MiB"))
  raise_if (ltb max_total (total + length bytes)) (value_error "submission exceeds 10 MiB total")
  check_text name bytes
  ok bytes

-- The body of the loop, with the total so far. `{name!r}` is shown without its quotes.
unfoldable pub capture_file : (String → Result Opened) → ℕ → String → Result (List ℕ)
capture_file open_at total name = do
  raise_if (not (str_mem name required) && not (is_module_name (codes name)))
      (value_error (name <> ": expected a flat Lean module filename or declared metric"))
  info ← open_at name
  read_checked total name info

-- The loop over the sorted names.
unfoldable pub capture_files : (String → Result Opened) → ℕ → List String → Result Bundle
capture_files open_at total [] = ok []
capture_files open_at total (name ∷ names) = do
  bytes ← capture_file open_at total name
  rest ← capture_files open_at (total + length bytes) names
  ok ((name, bytes) ∷ rest)

-- `root` is the result of opening the directory itself with no-follow.
unfoldable pub capture : Result Folder → Result Bundle
unfolding missing join
capture root = do
  folder ← root
  raise_if (ltb 1000 (length folder.names)) (value_error "submission exceeds 1000 files")
  let names = sort name_le folder.names
  raise_if (not (has_all_names required names)) (
      value_error
        ("missing submission artifacts: " <> join (sort name_le (missing required names))))
  capture_files folder.open_at 0 names

-- `manifest`: the size and digest of each file in name order, and a digest over all. `sha256` is
-- `hashlib.sha256(…).hexdigest()`, and `encode` the canonical JSON text of the file table.
pub record FileEntry : Type 0 where
  pub size : ℕ
  pub sha256 : String

pub record Manifest : Type 0 where
  pub sha256 : String
  pub files : List (String × FileEntry)

abbrev pub entry_le : String × List ℕ → String × List ℕ → Bool
entry_le a b = name_le a.0 b.0

abbrev pub file_table : (List ℕ → String) → Bundle → List (String × FileEntry)
file_table sha256 [] = []
file_table sha256 ((name, bytes) ∷ bundle) =
    (name, record { size = length bytes; sha256 = sha256 bytes }) ∷ file_table sha256 bundle

unfoldable pub manifest :
    (List ℕ → String) → (List (String × FileEntry) → List ℕ) → Bundle → Manifest
manifest sha256 encode bundle =
    let files = file_table sha256 (sort entry_le bundle) in
    record { sha256 = sha256 (encode files); files = files }

-- The entry of a name in a directory that this process made.
unfoldable pub find : String → Bundle → Option (List ℕ)
find name [] = none
find name ((n, bytes) ∷ files) = if str_eq name n then some bytes else find name files

-- `(destination / name).open("xb")` and the write: an existing name raises.
unfoldable pub write_new : String → List ℕ → Bundle → Result Bundle
write_new name bytes files = elim (find name files) [
  | none ↦ ok (files ++ ((name, bytes) ∷ []))
  | some _ ↦ err (os_error name)
]

unfoldable pub write_all : Bundle → Bundle → Result Bundle
write_all [] files = ok files
write_all ((name, bytes) ∷ bundle) files = do
  files' ← write_new name bytes files
  write_all bundle files'

-- `exists` says whether the destination is there already. The result is its new content.
unfoldable pub materialize : Bool → Bundle → Result Bundle
materialize exists bundle = do raise_if exists (os_error "destination exists"); write_all bundle []
