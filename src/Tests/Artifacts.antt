-- ===== src/Tests/Artifacts.antt =====
-- scripts/artifact_snapshot.py on two modules, and scripts/worker_admission.py with two processes.
use leansphincs.Base.{ℕ, ◌≡◌, refl, ◌↔◌, String, true, none, some, List, [], ◌∷◌, ok, worker_busy}
use leansphincs.Base.Names.{name_le, codes_le}
use leansphincs.Base.Sort.{sort, insert}
use leansphincs.Bundle.{Folder, FileEntry, Bundle, read, find, manifest}
use leansphincs.Bundle.Copy.{folder_of}
use leansphincs.Bundle.Names.{is_word_start, is_word}
use leansphincs.Artifacts.{
  all_identifiers, is_identifier, allowed, default_required, oleans, read_artifact, read_artifacts,
  capture_artifacts, freeze_artifacts,
}
use leansphincs.Artifacts.Acceptance.{IsSnapshot, capture_artifacts_iff}
use leansphincs.Artifacts.Frozen.{freeze-capture}
use leansphincs.Worker.{
  worker_slot, close, inside, finished, System, update, start, enter, refuse, Reachable, initial,
  next,
}
use leansphincs.Worker.Exclusion.{Reachable-exclusive}

abbrev modules : List String
modules = "Scheme" ∷ "Solution" ∷ []

abbrev prefix : List String
prefix = "LeanSphincs" ∷ "Submission" ∷ []

abbrev compiled : Bundle
compiled = ("Scheme.olean", 1 ∷ []) ∷ ("Solution.ilean", []) ∷ ("Solution.olean", 2 ∷ []) ∷ []

capture_artifacts_run :
    capture_artifacts (ok (folder_of compiled)) modules prefix none ≡ ok compiled
unfolding capture_artifacts is_identifier is_word_start is_word allowed default_required oleans
    read_artifacts read_artifact read sort insert name_le codes_le find folder_of
capture_artifacts_run = refl

capture_artifacts_iff_example :
    (capture_artifacts (ok (folder_of compiled)) modules prefix none ≡ ok compiled) ↔ (
      (all_identifiers prefix ≡ true)
      × ((folder : Folder) × (ok (folder_of compiled) ≡ ok folder)
          × IsSnapshot modules none folder compiled))
capture_artifacts_iff_example =
    capture_artifacts_iff modules prefix none (ok (folder_of compiled)) compiled

-- A digest and a text of the file table.
abbrev digest : List ℕ → String
digest bytes = "ab"

abbrev table_text : List (String × FileEntry) → List ℕ
table_text files = []

freeze-capture_example :
    (freeze_artifacts digest table_text (ok (folder_of compiled)) [] modules prefix none
      ≡ ok (compiled, manifest digest table_text compiled))
    × (capture_artifacts (ok (folder_of compiled)) modules prefix none ≡ ok compiled)
freeze-capture_example =
    freeze-capture digest table_text (ok (folder_of compiled)) modules prefix none compiled
      capture_artifacts_run ((refl, (refl, tt)), ((refl, tt), (tt, tt)))

-- The first process has entered.
abbrev one : System
one = record { holder = some 0; phases = update start.phases 0 inside }

-- The second was refused, and its descriptor is closed.
abbrev two : System
two = record { holder = some 0; phases = update one.phases 1 finished }

two-Reachable : Reachable two
unfolding worker_slot close
two-Reachable = next (next initial (enter 0 (ok true) (some 0) refl refl)) (
    refuse 1 (ok true) (worker_busy "another verification owns this checkout; retry later") refl
      refl)

Reachable-exclusive_example : ◌≡◌ {A = ℕ} 0 0
Reachable-exclusive_example = Reachable-exclusive two 0 0 two-Reachable refl refl
