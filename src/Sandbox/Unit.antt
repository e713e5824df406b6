-- ===== src/Sandbox/Unit.antt =====
-- `systemd_command` of scripts/sandbox_profile.py: the transient unit around a sandboxed child.
use leansphincs.Base.{
  ℕ, String, ◌<>◌, Bool, not, ◌&&◌, List, [], ◌∷◌, ◌++◌, leb, ◌==◌, if◌then◌else◌, Result, ok,
  value_error, ◌>>◌, raise_if,
}
use leansphincs.Base.Decimal.{decimal}
use leansphincs.Base.Sort.{sort}
use leansphincs.Base.Names.{name_le}

-- The text of a numeral, from its bytes.
abbrev digit : ℕ → String
digit c =
    if c == b'0'
    then "0"
    else if c == b'1'
    then "1"
    else if c == b'2'
    then "2"
    else if c == b'3'
    then "3"
    else if c == b'4'
    then "4"
    else if c == b'5'
    then "5"
    else if c == b'6'
    then "6"
    else if c == b'7'
    then "7"
    else if c == b'8'
    then "8"
    else "9"

abbrev numeral : List ℕ → String
numeral [] = ""
numeral (c ∷ cs) = digit c <> numeral cs

-- `str(n)`
unfoldable pub str_of : ℕ → String
str_of n = numeral (decimal n)

abbrev pub Environment : Type 0
Environment = List (String × String)

abbrev pub key_le : String × String → String × String → Bool
key_le a b = name_le a.0 b.0

-- `[f"{k}={v}" for k, v in …]`
abbrev pub assignments : Environment → List String
assignments [] = []
assignments ((k, v) ∷ rest) = (k <> ("=" <> v)) ∷ assignments rest

-- `hex` is `uuid.uuid4().hex`.
unfoldable pub systemd_command :
    String → List String → String → Environment → ℕ → Result (List String)
systemd_command hex command cwd environment runtime_seconds = do
  raise_if (not (leb 1 runtime_seconds && leb runtime_seconds 4800))
      (value_error "invalid verifier runtime limit")
  let args =
      "systemd-run"
      ∷ "--user"
      ∷ "--wait"
      ∷ "--pipe"
      ∷ "--collect"
      ∷ "--quiet"
      ∷ ("--unit=leansphincs-" <> (hex <> ".service"))
      ∷ "--property=MemoryMax=24G"
      ∷ "--property=MemorySwapMax=0"
      ∷ "--property=TasksMax=256"
      ∷ "--property=TimeoutStopSec=5"
      ∷ ("--property=RuntimeMaxSec=" <> str_of runtime_seconds)
      ∷ "--property=LimitCORE=0"
      ∷ "--property=LimitFSIZE=2147483648"
      ∷ "--property=NoNewPrivileges=yes"
      ∷ "--property=UMask=0077"
      ∷ "--property=SystemCallFilter=~@network-io @mount @reboot @swap @raw-io @debug"
      ∷ "--property=SystemCallErrorNumber=EPERM"
      ∷ "--property=KillMode=control-group"
      ∷ ("--working-directory=" <> cwd)
      ∷ []
  ok (
      args
      ++ (("--" ∷ "/usr/bin/env" ∷ "-i" ∷ [])
          ++ (assignments (sort key_le environment) ++ command)))
