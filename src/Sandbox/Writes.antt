-- ===== src/Sandbox/Writes.antt =====
-- What the grants of sandbox_profile.py let a child write.
use leansphincs.Base.{◌≡◌, refl, ap, ◌∙◌, inl, inr, String, Bool, Bool-cases, List, [], ◌∷◌, ◌++◌}
use leansphincs.Sandbox.{
  Host, Grant, best_effort, ldd, add_exec, ro, rox, rw_path, env, existing, readable, exported,
  build_grants, grants,
}

-- The paths that a child may write.
abbrev pub writes : List Grant → List String
writes [] = []
writes (rw_path path ∷ gs) = path ∷ writes gs
writes (best_effort ∷ gs) = writes gs
writes (ldd ∷ gs) = writes gs
writes (add_exec ∷ gs) = writes gs
writes (ro path ∷ gs) = writes gs
writes (rox path ∷ gs) = writes gs
writes (env key ∷ gs) = writes gs

writes-append : (gs hs : List Grant) → writes (gs ++ hs) ≡ writes gs ++ writes hs
writes-append [] hs = refl
writes-append (rw_path path ∷ gs) hs = ap (◌∷◌ path) (writes-append gs hs)
writes-append (best_effort ∷ gs) hs = writes-append gs hs
writes-append (ldd ∷ gs) hs = writes-append gs hs
writes-append (add_exec ∷ gs) hs = writes-append gs hs
writes-append (ro path ∷ gs) hs = writes-append gs hs
writes-append (rox path ∷ gs) hs = writes-append gs hs
writes-append (env key ∷ gs) hs = writes-append gs hs

writes-existing :
    (exists : String → Bool) (paths : List String) → writes (existing exists paths) ≡ []
unfolding existing
writes-existing exists [] = refl
writes-existing exists (path ∷ paths) = elim (Bool-cases (exists path)) [
  | inl e ↦ rw e (writes-existing exists paths)
  | inr e ↦ rw e (writes-existing exists paths)
]

writes-readable : (paths : List String) → writes (readable paths) ≡ []
unfolding readable
writes-readable [] = refl
writes-readable (path ∷ paths) = writes-readable paths

writes-exported :
    (environ : String → Bool) (keys : List String) → writes (exported environ keys) ≡ []
unfolding exported
writes-exported environ [] = refl
writes-exported environ (key ∷ keys) = elim (Bool-cases (environ key)) [
  | inl e ↦ rw e (writes-exported environ keys)
  | inr e ↦ rw e (writes-exported environ keys)
]

writes_skip : (gs hs : List Grant) → writes gs ≡ [] → writes (gs ++ hs) ≡ writes hs
writes_skip gs hs e = writes-append gs hs ∙ rw e refl

pub writes-grants :
    (host : Host) (root lean exporter : String) (build : Bool) (prefix : String)
    → writes (grants host root lean exporter build prefix)
      ≡ "/dev/null" ∷ writes (build_grants build root prefix)
unfolding grants
writes-grants host root lean exporter build prefix =
    let libs = existing host.exists ("/lib" ∷ "/lib64" ∷ "/usr/lib" ∷ []) in
    let keys = exported host.environ ("PATH" ∷ "HOME" ∷ "LEAN_PATH" ∷ "LEAN_ABORT_ON_PANIC" ∷ []) in
    let last = build_grants build root prefix in
    let packages = readable host.packages in
    writes_skip libs (rw_path "/dev/null" ∷ ro "/dev/urandom" ∷ (packages ++ (keys ++ last)))
      (writes-existing host.exists _)
    ∙ ap (◌∷◌ "/dev/null") (
        writes_skip packages (keys ++ last) (writes-readable host.packages)
        ∙ writes_skip keys last (writes-exported host.environ _))
