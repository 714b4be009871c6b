-- ===== src/EndToEnd/Listed.antt =====
-- What the engine lists of an index that was just built.
use pdq.Prelude.{ℕ, ◌≡◌, true, false, List, is_empty}
use pdq.Prelude.Result.{ok}
use pdq.Text.{Str}
use pdq.Fst.{Fst}
use pdq.IndexDir.{IsFileName}
use pdq.Index.World.{calculate_file_hash, World}
use pdq.Index.Indexer.{index_file}
use pdq.Index.Success.{index_file-inv}
use pdq.Query.Listing.{has, get_available_columns, list_indexed_files}
use pdq.Query.Listing.Laws.{IsSorted, listed-dir, available_columns-lem}

-- If `index_file` succeeds for a column whose name is not empty and holds no `/`, the engine lists
-- the hash of the path among the indexed files, and the column among the available columns of that
-- hash, which come in ascending order.
pub index_file-listed :
    (fst : Fst) (hasher : Str → ℕ) (file_path column : Str) (w w' : World fst)
    → index_file fst hasher file_path column w ≡ (ok tt, w')
    → is_empty column ≡ false
    → IsFileName column
    → (has (list_indexed_files fst w'.index) (calculate_file_hash hasher file_path) ≡ true)
      × ((columns : List Str) × (get_available_columns fst
              (calculate_file_hash hasher file_path)
              w'.index
            ≡ ok columns)
          × IsSorted columns
          × (has columns column ≡ true))
index_file-listed fst hasher file_path column w w' done named in_folder =
    let x = (index_file-inv fst hasher file_path column w w' done).written in
    let file_hash = calculate_file_hash hasher file_path in
    (
      listed-dir fst w'.index file_hash x.folder x.found,
      available_columns-lem fst w'.index file_hash column x.folder x.image x.found named x.indexed,
    )
