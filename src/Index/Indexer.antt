-- ===== src/Index/Indexer.antt =====
-- `Indexer` of index.rs: `index_file`, `build_index_ext`, `build_index` and `prune_orphans`, over the
-- files that they read and write.
use pdq.Prelude.{
  ℕ, zero, suc, ◌+◌, Bool, true, false, Option, none, some, List, [], ◌∷◌, if◌then◌else◌, length,
  drop, filter,
}
use pdq.Prelude.Result.{ok, err, io, not_parquet, bad_fst, before_epoch}
use pdq.Prelude.Exec.{Exec, pure, lift, gets, ◌>>=◌, ◌>>◌}
use pdq.Text.{Str, codes, str_eq}
use pdq.Text.Lines.{lines}
use pdq.KeyFormat.{rposition}
use pdq.Assoc.{Map, lookup, str_key}
use pdq.Fst.{Fst}
use pdq.IndexDir.{missing, unreadable, present, Node, plain, dir, IndexDir}
use pdq.Index.Keys.{index_keys}
use pdq.Index.Metadata.{metadata_content, ok_or, needs_indexing}
use pdq.Index.World.{
  calculate_file_hash, DataFile, World, attempt, create_hash_dir, write_metadata, write_fst,
  remove_dir,
}

-- `Path::file_name`, of a path that does not end in a slash
file_name : Str → Str
unfolding rposition
file_name path = elim (rposition b'/' path) [ none ↦ path | some i ↦ drop (suc i) path ]

name_extension : Str → Option Str
unfolding rposition
name_extension name = if str_eq name (codes "..") then none else elim (rposition b'.' name) [
  | none ↦ none
  | some zero ↦ none
  | some (suc i) ↦ some (drop (suc (suc i)) name)
]

-- `path().extension()`
unfoldable pub extension : Str → Option Str
unfolding file_name name_extension
extension path = name_extension (file_name path)

unfoldable pub is_parquet : Str → Bool
unfolding extension
is_parquet path = elim (extension path) [ none ↦ false | some ext ↦ str_eq ext (codes "parquet") ]

-- What `prune_orphans` does with a folder of the index directory.
pub data Verdict : Type 0 where
  keep discard unknown : Verdict

module _ (fst : Fst) where
  -- `SetBuilder`, after the file was created and thereby emptied.
  unfoldable pub fill_fst : Str → Str → Option fst.Image → Exec (World fst) Unit
  unfolding write_fst
  fill_fst file_hash column none = lift (err bad_fst)
  fill_fst file_hash column (some image) = write_fst fst file_hash column image

  unfoldable pub write_index : Str → Str → Str → DataFile → ℕ → List Str → Exec (World fst) Unit
  unfolding attempt create_hash_dir write_metadata write_fst fill_fst ok_or metadata_content
  write_index file_hash file_path column file num_row_groups keys = do
    attempt fst
    create_hash_dir fst file_hash
    mtime ← lift (ok_or before_epoch file.mtime)
    attempt fst
    write_metadata fst file_hash (metadata_content file_path mtime file.size num_row_groups)
    attempt fst
    write_fst fst file_hash column fst.truncated
    attempt fst
    fill_fst file_hash column (fst.build keys)

  module _ (hasher : Str → ℕ) where
    unfoldable pub index_file : Str → Str → Exec (World fst) Unit
    unfolding calculate_file_hash lookup ok_or index_keys write_index
    index_file file_path column = do
      file ← gets (λ w. ok_or io (lookup file_path w.files))
      groups ← lift (ok_or not_parquet file.groups)
      keys ← lift (index_keys column groups)
      write_index (calculate_file_hash hasher file_path) file_path column file (length groups) keys

    -- One round of the loop of `build_index_ext`.
    unfoldable pub index_if_needed : Str → Bool → Str → Exec (World fst) Unit
    unfolding index_file needs_indexing
    index_if_needed column force file_path = do
      needed ← if force then pure true else gets (λ w. needs_indexing fst hasher w file_path column)
      if needed then index_file file_path column else pure tt

    unfoldable pub index_each : Str → Bool → List Str → Exec (World fst) Unit
    unfolding index_if_needed
    index_each column force [] = pure tt
    index_each column force (file_path ∷ paths) = do
      index_if_needed column force file_path
      index_each column force paths

    -- `entries` are the paths that `WalkDir` gives for the data directory.
    unfoldable pub build_index_ext : List Str → Str → Bool → Exec (World fst) Unit
    unfolding attempt index_each is_parquet
    build_index_ext entries column force = do
      attempt fst
      index_each column force (filter is_parquet entries)

    unfoldable pub build_index : List Str → Str → Exec (World fst) Unit
    unfolding build_index_ext
    build_index entries column = build_index_ext entries column false

  path_verdict : Map Str DataFile → List Str → Verdict
  unfolding lookup
  path_verdict files [] = keep
  path_verdict files (original_path ∷ rest) = elim (lookup original_path files) [
    | none ↦ discard
    | some f ↦ keep
  ]

  unfoldable pub verdict : Map Str DataFile → Node fst → Verdict
  unfolding path_verdict lines
  verdict files plain = keep
  verdict files (dir d) = elim d.metadata [
    | missing ↦ discard
    | unreadable ↦ unknown
    | present contents ↦ path_verdict files (lines contents)
  ]

  unfoldable pub carry_out : Verdict → Str → Exec (World fst) ℕ
  unfolding attempt remove_dir
  carry_out keep file_hash = pure 0
  carry_out unknown file_hash = lift (err io)
  carry_out discard file_hash = do attempt fst; remove_dir fst file_hash; pure 1

  unfoldable pub prune_entries : IndexDir fst → Exec (World fst) ℕ
  unfolding carry_out verdict
  prune_entries [] = pure 0
  prune_entries ((file_hash, node) ∷ entries) = do
    v ← gets (λ w. ok (verdict w.files node))
    n ← carry_out v file_hash
    rest ← prune_entries entries
    pure (n + rest)

  -- The loop runs over what `read_dir` lists at its start.
  unfoldable pub prune_orphans : Exec (World fst) ℕ
  unfolding prune_entries
  prune_orphans w = prune_entries w.index w
