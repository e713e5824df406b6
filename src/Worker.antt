-- ===== src/Worker.antt =====
-- scripts/worker_admission.py: the slot of a worker, and the processes that compete for it.
pub mod Exclusion
use leansphincs.Base.{
  ℕ, ◌≡◌, Bool, true, false, not, Option, none, some, ◌==◌, if◌then◌else◌, Result, ok, err,
  runtime_error, worker_busy, Exception, ◌>>=◌, ◌>>◌, raise_if,
}

-- `flock` without blocking, on a lock with its holder.
abbrev pub flock : Option ℕ → ℕ → Result (Option ℕ)
flock none p = ok (some p)
flock (some q) p = err (worker_busy "another verification owns this checkout; retry later")

-- `worker_slot` up to its `yield`, for the process `p`. `opened` is the result of the open, with
-- whether the file is regular.
unfoldable pub worker_slot : Result Bool → Option ℕ → ℕ → Result (Option ℕ)
worker_slot opened holder p = do
  regular ← opened
  raise_if (not regular) (runtime_error "worker lock must be a regular file")
  flock holder p

-- `os.close(descriptor)`, and the end of a process: the kernel releases the lock of the descriptor.
unfoldable pub close : Option ℕ → ℕ → Option ℕ
close none p = none
close (some q) p = if q == p then none else some q

pub data Phase : Type 0 where
  waiting inside finished : Phase

-- The lock of one checkout, and where each process stands.
pub record System : Type 0 where
  pub holder : Option ℕ
  pub phases : ℕ → Phase

abbrev pub update : (ℕ → Phase) → ℕ → Phase → ℕ → Phase
update phases p phase q = if q == p then phase else phases q

abbrev pub start : System
start = record { holder = none; phases = λ p. waiting }

-- A process enters the slot, is refused and closes its descriptor, or leaves by the end of the block,
-- by an exception or by its death.
pub data Step (s : System) : System → Type 0 where
  enter :
      (p : ℕ) (opened : Result Bool) (holder : Option ℕ)
      → s.phases p ≡ waiting
      → worker_slot opened s.holder p ≡ ok holder
      → Step s (record { holder = holder; phases = update s.phases p inside })
  refuse :
      (p : ℕ) (opened : Result Bool) (raised : Exception)
      → s.phases p ≡ waiting
      → worker_slot opened s.holder p ≡ err raised
      → Step s (record { holder = close s.holder p; phases = update s.phases p finished })
  leave :
      (p : ℕ)
      → s.phases p ≡ inside
      → Step s (record { holder = close s.holder p; phases = update s.phases p finished })

pub data Reachable : System → Type 0 where
  initial : Reachable start
  next : {s t : System} → Reachable s → Step s t → Reachable t

-- The states that the processes reach from `s`.
pub data Steps (s : System) : System → Type 0 where
  here : Steps s s
  further : {t u : System} → Steps s t → Step t u → Steps s u
