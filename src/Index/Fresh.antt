-- ===== src/Index/Fresh.antt =====
-- After `index_file`: when the file is taken to be up to date, and what the engine reads of it.
use pdq.Prelude.{ℕ, ◌<◌, ◌≡◌, ap, true, false, some, List, [], ◌∷◌, length, ==_refl}
use mathlib.Core.Path.{subst}
use pdq.Prelude.Result.{ok}
use pdq.Text.{Str}
use pdq.Text.Decimal.{word, decimal, decimal-IsDigit, parse_usize-decimal}
use pdq.Text.Lines.{lines, IsLine, lines-line, digits-IsLine, lines-nil}
use pdq.Assoc.{lookup, str_key}
use pdq.Fst.{Fst}
use pdq.IndexDir.{present, hash_dir, fst_file}
use pdq.Parquet.{RowGroup}
use pdq.Index.Metadata.{
  metadata_content, exists, parse_or_zero, is_outdated, compare_metadata, needs_indexing,
}
use pdq.Index.World.{calculate_file_hash, DataFile, World}
use pdq.Index.Indexer.{index_file}
use pdq.Index.Frame.{SameElsewhere, index_file-frame}
use pdq.Index.Success.{Indexed, index_file-inv}

decimal-IsLine : (n : ℕ) → IsLine (decimal n)
decimal-IsLine n = digits-IsLine (decimal n) (decimal-IsDigit n)

-- The lines of the contents written to `metadata.txt` are the path, the time, the size and the
-- number of row groups, where the path is one line.
pub lines-metadata_content :
    (file_path : Str) (mtime size n : ℕ)
    → IsLine file_path
    → lines (metadata_content file_path mtime size n)
      ≡ file_path ∷ decimal mtime ∷ decimal size ∷ decimal n ∷ []
unfolding metadata_content
lines-metadata_content file_path mtime size n h = rw (
  lines-line file_path _ h,
  lines-line (decimal mtime) _ (decimal-IsLine mtime),
  lines-line (decimal size) _ (decimal-IsLine size),
  lines-line (decimal n) [] (decimal-IsLine n),
  lines-nil,
)

parse_or_zero-decimal : (n : ℕ) → n < word → parse_or_zero (decimal n) ≡ n
unfolding parse_or_zero
parse_or_zero-decimal n h = rw (parse_or_zero, parse_usize-decimal n h)

is_outdated-same :
    (mtime size : ℕ) (path : Str) (rest : List Str)
    → mtime < word
    → size < word
    → is_outdated mtime size (path ∷ decimal mtime ∷ decimal size ∷ rest) ≡ false
unfolding is_outdated
is_outdated-same mtime size path rest hm hs = rw (
  is_outdated,
  parse_or_zero-decimal mtime hm,
  parse_or_zero-decimal size hs,
  ==_refl mtime,
  ==_refl size,
)

pub compare_metadata-same :
    (fst : Fst) (hasher : Str → ℕ) (file : DataFile) (file_path : Str) (mtime n : ℕ)
    → file.mtime ≡ some mtime
    → IsLine file_path
    → mtime < word
    → file.size < word
    → compare_metadata fst hasher file (present (metadata_content file_path mtime file.size n))
      ≡ ok false
unfolding compare_metadata
compare_metadata-same fst hasher file file_path mtime n t line hm hs = rw (
  t,
  lines-metadata_content file_path mtime file.size n line,
  is_outdated-same mtime file.size file_path (decimal n ∷ []) hm hs,
)

-- The modification time and the size of a file fit `u64`, and its row groups `usize`.
pub record IsU64 (file : DataFile) : Type 0 where
  pub time_fits : (mtime : ℕ) → file.mtime ≡ some mtime → mtime < word
  pub size_fits : file.size < word
  pub groups_fit : (groups : List RowGroup) → file.groups ≡ some groups → length groups < word

module _ (fst : Fst) (hasher : Str → ℕ) (file_path column : Str) (w w' : World fst)
    (done : index_file fst hasher file_path column w ≡ (ok tt, w')) (line : IsLine file_path)
    (fits : (file : DataFile) → lookup file_path w.files ≡ some file → IsU64 file) where
  run : Indexed fst hasher file_path column w w'
  run = index_file-inv fst hasher file_path column w w' done

  frame : SameElsewhere fst (calculate_file_hash hasher file_path) column w w'
  frame =
      subst (SameElsewhere fst (calculate_file_hash hasher file_path) column w) (ap (λ q. q.1) done)
        (index_file-frame fst hasher file_path column w)

  up_to_date :
      (c : Str)
      → exists (fst_file fst (calculate_file_hash hasher file_path) c w'.index) ≡ true
      → needs_indexing fst hasher w' file_path c ≡ ok false
  unfolding needs_indexing
  up_to_date c there =
      let x = run.written in
      let u = fits run.file run.opened in
      rw (needs_indexing, there, hash_dir, x.found, x.metadata, frame.files, run.opened)
        (compare_metadata-same fst hasher run.file file_path x.mtime (length run.groups) x.time_read
          line (u.time_fits x.mtime x.time_read) u.size_fits)

  -- The index of the column stands where `index_file` put it.
  indexed-there :
      exists (fst_file fst (calculate_file_hash hasher file_path) column w'.index) ≡ true
  unfolding fst_file
  indexed-there = let x = run.written in rw (fst_file, hash_dir, x.found, x.indexed)

  -- After a successful `index_file`, on a path that is one line and a file whose numbers fit 64
  -- bits, the file does not need indexing for the column, as long as it is not written to again.
  pub needs_indexing-index_file : needs_indexing fst hasher w' file_path column ≡ ok false
  needs_indexing-index_file = up_to_date column indexed-there
