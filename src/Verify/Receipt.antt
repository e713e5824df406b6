-- ===== src/Verify/Receipt.antt =====
-- `write_receipt` of scripts/verify_submission.py: the states of a directory on the way to a receipt.
pub mod Triples
pub mod Atomic
use text.Mathlib.Text.{◌==◌ as str_eq}
use leansphincs.Base.{
  ℕ, String, Bool, Option, none, some, List, [], ◌∷◌, ◌++◌, if◌then◌else◌, Result, ok, err,
}

-- What each name of the directory holds.
abbrev pub Directory : Type 0
Directory = String → Option (List ℕ)

abbrev pub put : String → Option (List ℕ) → Directory → Directory
put name content dir n = if str_eq n name then content else dir n

-- What the calls do: `mkstemp` with the name that it makes, the stream's `write` and `flush` with what
-- they leave in the file if they raise (or before the flush), `fsync`, the close, `os.replace` and
-- the unlink. A flush that returns has written the whole text.
pub record Disk : Type 0 where
  pub mkstemp : Result String
  pub fdopen : Result (Unit {0})
  pub written : List ℕ
  pub write : Result (Unit {0})
  pub flushed : List ℕ
  pub flush : Result (Unit {0})
  pub fsync : Result (Unit {0})
  pub close : Result (Unit {0})
  pub replace : Result (Unit {0})
  pub unlink : Result (Unit {0})

-- A computation on the directory, with every state that it passes through.
abbrev pub Action : Type 0
Action = Directory → List Directory × Directory × Result (Unit {0})

-- One call.
abbrev pub effect : (Directory → Directory) → (Directory → Directory) → Result (Unit {0}) → Action
effect after broken (ok u) dir = (after dir ∷ [], after dir, ok u)
effect after broken (err e) dir = (broken dir ∷ [], broken dir, err e)

abbrev pub prepend :
    List Directory
    → List Directory × Directory × Result (Unit {0})
    → List Directory × Directory × Result (Unit {0})
prepend t (s, dir, x) = (t ++ s, dir, x)

abbrev pub continue :
    List Directory × Directory × Result (Unit {0})
    → Action
    → List Directory × Directory × Result (Unit {0})
continue (t, dir, ok u) k = prepend t (k dir)
continue (t, dir, err e) k = (t, dir, err e)

infixl 5 ◌>>◌
abbrev pub ◌>>◌ : Action → Action → Action
(m >> k) dir = continue (m dir) k

-- What the cleanup raises takes the place of the result.
abbrev pub outcome : Result (Unit {0}) → Result (Unit {0}) → Result (Unit {0})
outcome x (ok u) = x
outcome x (err e) = err e

abbrev pub conclude :
    List Directory
    → Result (Unit {0})
    → List Directory × Directory × Result (Unit {0})
    → List Directory × Directory × Result (Unit {0})
conclude t x (s, dir, y) = (t ++ s, dir, outcome x y)

-- `try: m finally: c`
abbrev pub ending :
    List Directory × Directory × Result (Unit {0})
    → Action
    → List Directory × Directory × Result (Unit {0})
ending (t, dir, x) c = conclude t x (c dir)

abbrev pub finally_do : Action → Action → Action
finally_do m c dir = ending (m dir) c

abbrev pub same : Directory → Directory
same dir = dir

module _ (disk : Disk) (name : String) (payload : List ℕ) (temp : String) where
  abbrev pub create : Action
  create = effect (put temp (some [])) same (ok tt)

  -- The block of the stream: its close comes in every case.
  unfoldable pub write_stream : Action
  write_stream =
      effect same same disk.fdopen
      >> finally_do
          (effect (put temp (some disk.written)) (put temp (some disk.written)) disk.write
            >> effect (put temp (some payload)) (put temp (some disk.flushed)) disk.flush
            >> effect same same disk.fsync)
          (effect same same disk.close)

  -- `os.replace(temporary, path)` moves the file in one step.
  abbrev pub move : Directory → Directory
  move dir = put temp none (put name (dir temp) dir)

  -- `Path(temporary).unlink(missing_ok=True)`
  unfoldable pub remove_temporary : Action
  remove_temporary = effect (put temp none) same disk.unlink

  unfoldable pub publish_receipt : Action
  publish_receipt =
      create >> finally_do (write_stream >> effect move same disk.replace) remove_temporary

abbrev pub behind_mkstemp : Disk → String → List ℕ → Result String → Action
behind_mkstemp disk name payload (err e) dir = ([], dir, err e)
behind_mkstemp disk name payload (ok temp) dir = publish_receipt disk name payload temp dir

abbrev pub behind_dumps : Disk → String → Result (List ℕ) → Action
behind_dumps disk name (err e) dir = ([], dir, err e)
behind_dumps disk name (ok payload) dir = behind_mkstemp disk name payload disk.mkstemp dir

-- `text` is the result of `json.dumps(…) + "\n"`, encoded.
unfoldable pub write_receipt : Disk → String → Result (List ℕ) → Action
write_receipt disk name text dir = behind_dumps disk name text dir
