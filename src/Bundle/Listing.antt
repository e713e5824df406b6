-- ===== src/Bundle/Listing.antt =====
-- `capture` and the order in which `scandir` lists a directory.
use mathlib.Core.List.{Perm}
use leansphincs.Base.{◌≡◌, sym, ap, ◌∙◌, String, List, length, Result, ok}
use leansphincs.Base.Sort.{sort, length-sort, sort-Perm}
use leansphincs.Base.Names.{name_le, name_le_total, name_le_trans, name_le_antisym, String-IsSet}
use leansphincs.Bundle.{Opened, capture}

pub sort-listing : (ms ns : List String) → Perm ms ns → sort name_le ms ≡ sort name_le ns
sort-listing = sort-Perm name_le name_le_total name_le_trans name_le_antisym String-IsSet

length-listing : (ms ns : List String) → Perm ms ns → length ms ≡ length ns
length-listing ms ns p =
    sym (length-sort name_le ms) ∙ (ap length (sort-listing ms ns p) ∙ length-sort name_le ns)

-- Two listings of one directory in different orders have the same capture: the same bundle, or the
-- same exception with the same message.
pub capture-Perm :
    (open_at : String → Result Opened) (ms ns : List String)
    → Perm ms ns
    → capture (ok (record { names = ms; open_at = open_at }))
      ≡ capture (ok (record { names = ns; open_at = open_at }))
unfolding capture
capture-Perm open_at ms ns p = rw (length-listing ms ns p, sort-listing ms ns p)
