-- ===== src/Examples/Index.antt =====
-- Indexing, and the engine opened on what it wrote.
use pdq.Prelude.{true}
use pdq.Prelude.{◌≡◌, refl, false, some, [], ◌∷◌, arith, length}
use pdq.Prelude.Result.{ok, err, io, bad_fst}
use pdq.Text.{codes}
use pdq.Text.Decimal.{decimal, hex}
use pdq.Assoc.{lookup, str_key}
use pdq.Fst.{Fst, list_fst}
use pdq.IndexDir.{missing, present}
use pdq.Parquet.{scan_groups}
use pdq.Index.World.{calculate_file_hash, World}
use pdq.Index.Metadata.{needs_indexing}
use pdq.Index.Indexer.{index_file}
use pdq.Index.Frame.{SameElsewhere, index_file-SameElsewhere}
use pdq.Index.Fresh.{needs_indexing-index_file}
use pdq.Index.Keys.{index_keys}
use pdq.Index.Interrupted.{index_file-interrupted}
use pdq.Query.Search.{search_set}
use pdq.Query.Ranges.{is_exact}
use pdq.Query.Engine.{load_set, new, num_row_groups}
use pdq.EndToEnd.{search-index_file}
use pdq.EndToEnd.Reopened.{new-index_file}
use pdq.Examples.Data.{ip, two_groups, two_groups_keys}
use pdq.Examples.World.{path, hasher, data_file, before, after, done, line, fits}

index_file-SameElsewhere_example :
    SameElsewhere list_fst
      (calculate_file_hash hasher path)
      ip
      before
      (index_file list_fst hasher path ip before).1
index_file-SameElsewhere_example = index_file-SameElsewhere list_fst hasher path ip before refl

needs_indexing-index_file_example : needs_indexing list_fst hasher after path ip ≡ ok false
needs_indexing-index_file_example =
    needs_indexing-index_file list_fst hasher path ip before after done line fits

search-index_file_example :
    (set : Fst.Keys list_fst) × (load_set list_fst after.index (calculate_file_hash hasher path) ip
      ≡ ok (some set))
    × ((term : _) → search_set list_fst set term ≡ ok (scan_groups (is_exact term) ip 0 two_groups))
unfolding lookup
search-index_file_example =
    search-index_file list_fst hasher path ip before after data_file two_groups done refl refl
      (omega arith)

new-index_file_example :
    (lookup (calculate_file_hash hasher path) (new list_fst after.index).0.file_map ≡ some path)
    × (num_row_groups (new list_fst after.index).0 (calculate_file_hash hasher path)
        ≡ some (length two_groups))
unfolding lookup hex index_file decimal
new-index_file_example =
    new-index_file list_fst hasher path ip before after data_file two_groups done refl refl
      (omega arith) line (refl, tt)

-- The disk fills up before the FST is written.
abbrev broken : World list_fst
broken = record before { faults = false ∷ false ∷ false ∷ true ∷ [] }

abbrev broken_after : World list_fst
broken_after = (index_file list_fst hasher path ip broken).1

index_file-interrupted_example :
    ((index_file list_fst hasher path ip broken).0 ≡ err io)
    × (load_set list_fst broken_after.index (calculate_file_hash hasher path) ip ≡ err bad_fst)
    × (needs_indexing list_fst hasher broken_after path ip ≡ ok false)
unfolding lookup hex calculate_file_hash index_keys decimal
index_file-interrupted_example =
    index_file-interrupted list_fst hasher path ip before.files before.index [] data_file 7
      two_groups two_groups_keys
      (record { metadata = missing; fsts = (codes "n", present (some [])) ∷ [] }) refl refl refl
      refl refl line (omega arith) (omega arith)

-- The folder has no `metadata.txt`.
abbrev pruned : World list_fst
pruned = record before { index = [] }
