-- ===== src/Index/World.antt =====
-- What the indexer reads and writes: the data files, the index directory, and the failures that the
-- file system has in store for the next writes.
use pdq.Prelude.{ℕ, Bool, true, false, Option, none, some, List, [], ◌∷◌}
use pdq.Prelude.Result.{Result, ok, err, io}
use pdq.Prelude.Exec.{Exec}
use pdq.Text.{Str}
use pdq.Text.Decimal.{hex}
use pdq.Assoc.{Map, lookup, insert, remove, str_key}
use pdq.Fst.{Fst}
use pdq.IndexDir.{missing, present, HashDir, Node, plain, dir, IndexDir}
use pdq.Parquet.{RowGroup}

-- `calculate_file_hash` of lib.rs. What `DefaultHasher` makes of the path is a parameter; paths are
-- valid UTF-8, which `to_string_lossy` leaves as they are.
unfoldable pub calculate_file_hash : (Str → ℕ) → Str → Str
unfolding hex
calculate_file_hash hasher file_path = hex (hasher file_path)

pub record DataFile : Type 0 where
  -- `modified()`, in seconds since the epoch; `none` if it lies before
  pub mtime : Option ℕ
  pub size : ℕ
  -- `none` if the reader refuses the file
  pub groups : Option (List RowGroup)

pub record World (fst : Fst) : Type 0 where
  -- The data files, which lie outside of the index directory.
  pub files : Map Str DataFile
  pub index : IndexDir fst
  -- One entry for each write to come: `true` makes it fail before it changes anything.
  pub faults : List Bool

module _ (fst : Fst) where
  unfoldable pub fault : List Bool → World fst → Result (Unit {0}) × World fst
  fault [] w = (ok tt, w)
  fault (false ∷ fs) w = (ok tt, record w { faults = fs })
  fault (true ∷ fs) w = (err io, record w { faults = fs })

  -- A write succeeds or fails.
  unfoldable pub attempt : Exec (World fst) (Unit {0})
  unfolding fault
  attempt w = fault w.faults w

  unfoldable pub set_node : Str → Node fst → Exec (World fst) (Unit {0})
  unfolding insert
  set_node file_hash n w = (ok tt, record w { index = insert file_hash n w.index })

  unfoldable pub ensure_dir : Str → Option (Node fst) → Exec (World fst) (Unit {0})
  unfolding set_node
  ensure_dir file_hash (some (dir d)) w = (ok tt, w)
  ensure_dir file_hash (some plain) w = (err io, w)
  ensure_dir file_hash none w =
      set_node file_hash (dir (record { metadata = missing; fsts = [] })) w

  -- `create_dir_all(&index_dir)`
  unfoldable pub create_hash_dir : Str → Exec (World fst) (Unit {0})
  unfolding ensure_dir lookup
  create_hash_dir file_hash w = ensure_dir file_hash (lookup file_hash w.index) w

  unfoldable pub change_node :
      Str → (HashDir fst → HashDir fst) → Option (Node fst) → Exec (World fst) (Unit {0})
  unfolding set_node
  change_node file_hash f (some (dir d)) w = set_node file_hash (dir (f d)) w
  change_node file_hash f _ w = (err io, w)

  -- A write within the folder of a hash.
  unfoldable pub change_dir : Str → (HashDir fst → HashDir fst) → Exec (World fst) (Unit {0})
  unfolding change_node lookup
  change_dir file_hash f w = change_node file_hash f (lookup file_hash w.index) w

  -- `std::fs::write(&metadata_path, …)`
  unfoldable pub write_metadata : Str → Str → Exec (World fst) (Unit {0})
  unfolding change_dir
  write_metadata file_hash text = change_dir file_hash (λ d. record d { metadata = present text })

  -- `File::create(&index_path)`, and what is written to it after.
  unfoldable pub write_fst : Str → Str → fst.Image → Exec (World fst) (Unit {0})
  unfolding change_dir insert
  write_fst file_hash column image =
      change_dir file_hash (λ d. record d { fsts = insert column (present image) d.fsts })

  -- `std::fs::remove_dir_all`
  unfoldable pub remove_dir : Str → Exec (World fst) (Unit {0})
  unfolding remove
  remove_dir file_hash w = (ok tt, record w { index = remove file_hash w.index })
