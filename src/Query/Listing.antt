-- ===== src/Query/Listing.antt =====
-- What the engine tells of the index: `resolve_file_paths`, `get_available_columns` and
-- `list_indexed_files` of query.rs.
pub mod Laws
use pdq.Prelude.{
  ℕ, Bool, true, false, not, ◌&&◌, Option, none, some, List, [], ◌∷◌, any, filter, is_empty,
  if◌then◌else◌,
}
use pdq.Prelude.Result.{Result, ok, err, io}
use pdq.Text.{Str, str_eq}
use pdq.Text.Order.{le_bytes}
use pdq.Assoc.{Map, lookup, insert, str_key}
use pdq.Fst.{Fst}
use pdq.IndexDir.{OnDisk, missing, unreadable, present, HashDir, Node, plain, dir, IndexDir}
use pdq.Index.World.{calculate_file_hash}
use pdq.Index.Indexer.{is_parquet}

-- `contains`
abbrev pub has : List Str → Str → Bool
has names name = any (λ n. str_eq n name) names

-- `collect` into a `HashMap`: a later entry replaces an earlier one.
unfoldable pub collect_map : Map Str Str → Map Str Str → Map Str Str
unfolding insert
collect_map [] map = map
collect_map ((key, value) ∷ entries) map = collect_map entries (insert key value map)

-- The files whose hash is asked for, with their hashes.
unfoldable pub wanted_files : (Str → ℕ) → List Str → List Str → Map Str Str
wanted_files hasher file_hashes [] = []
wanted_files hasher file_hashes (path ∷ paths) =
    let file_hash = calculate_file_hash hasher path in
    let rest = wanted_files hasher file_hashes paths in
    if has file_hashes file_hash then (file_hash, path) ∷ rest else rest

-- `entries` are the paths that `WalkDir` gives for the data directory.
unfoldable pub resolve_file_paths : (Str → ℕ) → List Str → List Str → Map Str Str
unfolding collect_map wanted_files is_parquet
resolve_file_paths hasher file_hashes entries =
    collect_map (wanted_files hasher file_hashes (filter is_parquet entries)) []

unfoldable pub insert_name : Str → List Str → List Str
insert_name x [] = x ∷ []
insert_name x (y ∷ ys) = if le_bytes x y then x ∷ y ∷ ys else y ∷ insert_name x ys

-- `sort`
unfoldable pub sort_names : List Str → List Str
unfolding insert_name
sort_names [] = []
sort_names (x ∷ xs) = insert_name x (sort_names xs)

abbrev pub is_there : {A : Type 0} → OnDisk A → Bool
is_there missing = false
is_there unreadable = true
is_there (present contents) = true

module _ (fst : Fst) where
  -- The stems of the files with the extension `fst`; a file named `.fst` has no extension.
  unfoldable pub fst_stems : Map Str (OnDisk fst.Image) → List Str
  fst_stems [] = []
  fst_stems ((column, file) ∷ files) =
      let rest = fst_stems files in
      if not (is_empty column) && is_there file then column ∷ rest else rest

  -- `exists()`, and `read_dir`, which fails on what is no directory
  unfoldable pub columns_of : Option (Node fst) → Result (List Str)
  unfolding fst_stems sort_names
  columns_of none = ok []
  columns_of (some plain) = err io
  columns_of (some (dir d)) = ok (sort_names (fst_stems d.fsts))

  unfoldable pub get_available_columns : Str → IndexDir fst → Result (List Str)
  unfolding columns_of lookup
  get_available_columns file_hash root = columns_of (lookup file_hash root)

  unfoldable pub list_indexed_files : IndexDir fst → List Str
  list_indexed_files [] = []
  list_indexed_files ((name, plain) ∷ root) = list_indexed_files root
  list_indexed_files ((name, dir d) ∷ root) = name ∷ list_indexed_files root
