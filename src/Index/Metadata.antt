-- ===== src/Index/Metadata.antt =====
-- `metadata.txt`, which `index_file` writes, and `needs_indexing`, which compares it with the file.
use pdq.Prelude.{
  ℕ, Bool, true, false, not, ◌||◌, Option, none, some, List, [], ◌∷◌, ◌++◌, ◌==◌, if◌then◌else◌,
}
use pdq.Prelude.Result.{Error, Result, ok, err, io, before_epoch, ◌>>=◌}
use pdq.Text.{Str}
use pdq.Text.Decimal.{decimal, parse_usize}
use pdq.Text.Lines.{newline, lines}
use pdq.Assoc.{lookup, str_key}
use pdq.Fst.{Fst}
use pdq.IndexDir.{OnDisk, missing, present, HashDir, hash_dir, fst_file}
use pdq.Index.World.{calculate_file_hash, DataFile, World}

-- The contents of `metadata.txt`: path, modification time, size, number of row groups.
unfoldable pub metadata_content : Str → ℕ → ℕ → ℕ → Str
metadata_content file_path mtime size num_row_groups =
    file_path
    ++ newline
    ++ (decimal mtime
        ++ newline
        ++ (decimal size ++ newline ++ (decimal num_row_groups ++ newline ++ [])))

-- `ok_or`: what may be absent, with the error if it is.
unfoldable pub ok_or : {A : Type 0} → Error → Option A → Result A
ok_or e none = err e
ok_or e (some a) = ok a

-- `read_to_string`
unfoldable pub read_to_string : OnDisk Str → Result Str
read_to_string (present contents) = ok contents
read_to_string _ = err io

abbrev pub exists : {A : Type 0} → OnDisk A → Bool
exists missing = false
exists _ = true

-- `parse::<u64>().unwrap_or(0)`
unfoldable pub parse_or_zero : Str → ℕ
unfolding parse_usize
parse_or_zero s = elim (parse_usize s) [ ok n ↦ n | err e ↦ 0 ]

-- Whether the lines are of the old format, or record another time or size.
unfoldable pub is_outdated : ℕ → ℕ → List Str → Bool
unfolding parse_or_zero
is_outdated mtime size (path ∷ stored_mtime ∷ stored_size ∷ rest) =
    not (mtime == parse_or_zero stored_mtime) || not (size == parse_or_zero stored_size)
is_outdated mtime size _ = true

abbrev pub dir_metadata : {fst : Fst} → Option (HashDir fst) → OnDisk Str
dir_metadata none = missing
dir_metadata (some d) = d.metadata

module _ (fst : Fst) (hasher : Str → ℕ) where
  unfoldable pub compare_metadata : DataFile → OnDisk Str → Result Bool
  unfolding ok_or read_to_string is_outdated lines
  compare_metadata file metadata = do
    mtime ← ok_or before_epoch file.mtime
    contents ← read_to_string metadata
    ok (is_outdated mtime file.size (lines contents))

  unfoldable pub needs_indexing : World fst → Str → Str → Result Bool
  unfolding calculate_file_hash hash_dir fst_file lookup compare_metadata
  needs_indexing w file_path column =
      let file_hash = calculate_file_hash hasher file_path in
      let metadata = dir_metadata (hash_dir fst file_hash w.index) in
      if not (exists (fst_file fst file_hash column w.index)) || not (exists metadata)
      then ok true
      else (do file ← ok_or io (lookup file_path w.files); compare_metadata file metadata)
