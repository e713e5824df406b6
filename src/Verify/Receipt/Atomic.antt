-- ===== src/Verify/Receipt/Atomic.antt =====
-- A receipt appears whole or not at all.
use leansphincs.Base.{
  ℕ, ◌≡◌, ◌≢◌, ◌⊎◌, inl, inr, refl, sym, subst, ap, ◌∙◌, String, Option, none, some, List, [], All,
  Result, ok,
}
use leansphincs.Verify.Receipt.{
  Directory, put, Disk, Action, effect, ◌>>◌, ending, finally_do, same, create, write_stream, move,
  remove_temporary, publish_receipt, behind_mkstemp, write_receipt,
}
use leansphincs.Verify.Receipt.Triples.{
  put_same, put_other, Triple, Triple-effect, Triple-then, Triple-finally,
}

-- The receipt's name holds what it held before, or the whole new text.
abbrev pub IsWhole : String → List ℕ → Directory → Directory → Type 0
IsWhole name payload dir s = (s name ≡ dir name) ⊎ (s name ≡ some payload)

module _ (disk : Disk) (name : String) (payload : List ℕ) (temp : String) (dir : Directory)
    (other : temp ≢ name) where
  abbrev Whole : Directory → Type 0
  Whole = IsWhole name payload dir

  abbrev IsOld : Directory → Type 0
  IsOld s = s name ≡ dir name

  abbrev IsWritten : Directory → Type 0
  IsWritten s = (s name ≡ dir name) × (s temp ≡ some payload)

  abbrev IsNew : Directory → Type 0
  IsNew s = s name ≡ some payload

  aside : (content : Option (List ℕ)) (s : Directory) → put temp content s name ≡ s name
  aside content s = put_other temp name content s (λ e. other (sym e))

  IsOld-aside :
      (content : Option (List ℕ)) (s : Directory)
      → IsOld s
      → Whole (put temp content s) × IsOld (put temp content s)
  IsOld-aside content s old = let kept = aside content s ∙ old in (inl kept, kept)

  Triple-same :
      (P : Directory → Type 0) (x : Result (Unit {0}))
      → ((s : Directory) → P s → Whole s)
      → Triple Whole P (effect same same x) P
  Triple-same P x f = Triple-effect Whole P P same same x (λ s p. (f s p, p)) f

  write_stream-Triple : Triple Whole IsOld (write_stream disk name payload temp) IsWritten
  unfolding write_stream
  write_stream-Triple =
      let text = put temp (some disk.written) in
      let full = put temp (some payload) in
      let part = put temp (some disk.flushed) in
      let writing : Triple Whole IsOld (effect text text disk.write) IsOld =
        Triple-effect Whole IsOld IsOld text text disk.write (IsOld-aside (some disk.written))
          (λ s old. (IsOld-aside (some disk.written) s old).0) in
      let flushing : Triple Whole IsOld (effect full part disk.flush) IsWritten =
        Triple-effect Whole IsOld IsWritten full part disk.flush
          (λ s old.
            let (w, o) = IsOld-aside (some payload) s old in
            (w, (o, put_same temp (some payload) s)))
          (λ s old. (IsOld-aside (some disk.flushed) s old).0) in
      let syncing = Triple-same IsWritten disk.fsync (λ s w. inl w.0) in
      Triple-then Whole IsOld IsOld IsWritten (effect same same disk.fdopen) _
        (Triple-same IsOld disk.fdopen (λ s old. inl old))
        (Triple-finally Whole IsOld IsWritten IsWritten _ (effect same same disk.close)
          (Triple-then Whole IsOld IsWritten IsWritten
            (effect text text disk.write >> effect full part disk.flush)
            (effect same same disk.fsync)
            (Triple-then Whole IsOld IsOld IsWritten (effect text text disk.write)
              (effect full part disk.flush) writing flushing)
            syncing)
          (Triple-same IsWritten disk.close (λ s w. inl w.0))
          (Triple-same Whole disk.close (λ s w. w)))

  replace-Triple :
      Triple Whole IsWritten (effect (move disk name payload temp) same disk.replace) IsNew
  replace-Triple =
      Triple-effect Whole IsWritten IsNew (move disk name payload temp) same disk.replace
        (λ s (old, full).
          let new = aside none (put name (s temp) s) ∙ (put_same name (s temp) s ∙ full) in
          (inr new, new))
        (λ s (old, full). inl old)

  remove-Triple :
      (P : Directory → Type 0)
      → ((s : Directory) → P s → Whole (put temp none s) × P (put temp none s))
      → ((s : Directory) → P s → Whole s)
      → Triple Whole P (remove_temporary disk name payload temp) P
  unfolding remove_temporary
  remove-Triple P f g = Triple-effect Whole P P (put temp none) same disk.unlink f g

  aside-Whole : (s : Directory) → Whole s → Whole (put temp none s)
  aside-Whole s (inl e) = inl (aside none s ∙ e)
  aside-Whole s (inr e) = inr (aside none s ∙ e)

  publish-Triple : Triple Whole IsOld (publish_receipt disk name payload temp) IsNew
  unfolding publish_receipt
  publish-Triple =
      Triple-then Whole IsOld IsOld IsNew (create disk name payload temp)
        (finally_do
          (write_stream disk name payload temp
            >> effect (move disk name payload temp) same disk.replace)
          (remove_temporary disk name payload temp))
        (Triple-effect Whole IsOld IsOld (put temp (some [])) same (ok tt) (IsOld-aside (some []))
          (λ s old. inl old))
        (Triple-finally Whole IsOld IsNew IsNew
          (write_stream disk name payload temp
            >> effect (move disk name payload temp) same disk.replace)
          (remove_temporary disk name payload temp)
          (Triple-then Whole IsOld IsWritten IsNew (write_stream disk name payload temp)
            (effect (move disk name payload temp) same disk.replace) write_stream-Triple
            replace-Triple)
          (remove-Triple IsNew (λ s new. let kept = aside none s ∙ new in (inr kept, kept))
            (λ s new. inr new))
          (remove-Triple Whole (λ s w. (aside-Whole s w, aside-Whole s w)) (λ s w. w)))

  ending_last :
      (x : List Directory × Directory × Result (Unit {0})) (c : Action) → (ending x c).1 ≡ (c x.1).1
  ending_last (t, s, x) c = refl

  remove_gone :
      (s : Directory)
      → disk.unlink ≡ ok tt
      → (remove_temporary disk name payload temp s).1 temp ≡ none
  unfolding remove_temporary
  remove_gone s e = rw e (put_same temp none s)

  publish_gone : disk.unlink ≡ ok tt → (publish_receipt disk name payload temp dir).1 temp ≡ none
  unfolding publish_receipt
  publish_gone e = remove_gone _ e

-- From the moment `mkstemp` has made a name beside the receipt's, whatever call fails or raises next:
-- in every state that the directory passes through, and in the last one, the receipt's name holds
-- what it held before or the whole new text, never a part of it. If `write_receipt` returns, it holds
-- the new text. The temporary file is gone in the end unless its unlink raised.
pub write_receipt-IsWhole :
    (disk : Disk) (name : String) (payload : List ℕ) (temp : String) (dir : Directory)
    → disk.mkstemp ≡ ok temp
    → temp ≢ name
    → let done = write_receipt disk name (ok payload) dir in
      All (IsWhole name payload dir) done.0
      × IsWhole name payload dir done.1
      × (done.2 ≡ ok tt → done.1 name ≡ some payload)
      × (disk.unlink ≡ ok tt → done.1 temp ≡ none)
unfolding write_receipt
write_receipt-IsWhole disk name payload temp dir made other =
    let (states, last, new) = publish-Triple disk name payload temp dir other dir refl in
    subst
      (λ (done : List Directory × Directory × Result (Unit {0})).
        All (IsWhole name payload dir) done.0
        × IsWhole name payload dir done.1
        × (done.2 ≡ ok tt → done.1 name ≡ some payload)
        × (disk.unlink ≡ ok tt → done.1 temp ≡ none))
      (sym (ap (λ m. behind_mkstemp disk name payload m dir) made))
      (states, last, new, publish_gone disk name payload temp dir other)
