-- ===== src/Index/Orphans.antt =====
-- What `prune_orphans` removes and what it keeps.
use pdq.Prelude.{ℕ, ◌+◌, ◌≡◌, Bool, true, false, ◌&&◌, ◌||◌, none, [], ◌∷◌, if◌then◌else◌}
use pdq.Text.{Str, str_eq}
use pdq.Assoc.{Map, lookup, str_key}
use pdq.Fst.{Fst}
use pdq.IndexDir.{IndexDir}
use pdq.Index.World.{DataFile, World}
use pdq.Index.Indexer.{Verdict, discard, verdict}

abbrev pub is_discard : Verdict → Bool
is_discard discard = true
is_discard _ = false

module _ (fst : Fst) where
  -- The folder is among those that are orphans: its `metadata.txt` is missing, or names a data file
  -- that is gone.
  abbrev pub is_orphan : Map Str DataFile → Str → IndexDir fst → Bool
  is_orphan files k [] = false
  is_orphan files k ((h, node) ∷ entries) =
      (str_eq h k && is_discard (verdict fst files node)) || is_orphan files k entries

  abbrev pub count_orphans : Map Str DataFile → IndexDir fst → ℕ
  count_orphans files [] = 0
  count_orphans files ((h, node) ∷ entries) =
      (if is_discard (verdict fst files node) then 1 else 0) + count_orphans files entries

  -- From `w` to `w'`, these folders are gone and nothing else has changed.
  pub record IsPruned (gone : Str → Bool) (w w' : World fst) : Type 0 where
    pub files : w'.files ≡ w.files
    pub folders : (k : Str) → lookup k w'.index ≡ (if gone k then none else lookup k w.index)
