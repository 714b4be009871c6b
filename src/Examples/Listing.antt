-- ===== src/Examples/Listing.antt =====
-- The listings of an index, and the table of a search for Python.
use pdq.Prelude.{ℕ, ◌≡◌, refl, true, none, List, [], ◌∷◌, map, filter, if◌then◌else◌}
use pdq.Prelude.Result.{ok}
use pdq.Text.{Str, codes}
use pdq.Assoc.{lookup, str_key}
use pdq.Fst.{list_fst}
use pdq.Index.World.{calculate_file_hash}
use pdq.Index.Indexer.{is_parquet}
use pdq.Query.Listing.{has, resolve_file_paths, get_available_columns, list_indexed_files}
use pdq.Query.Listing.Laws.{last_with, IsSorted, resolve_file_paths-eq}
use pdq.Query.Ranges.{is_exact}
use pdq.Query.Engine.Cache.{IsCoherent}
use pdq.Query.Engine.Corpus.{scan_corpus}
use pdq.EndToEnd.Listed.{index_file-listed}
use pdq.PyModule.Rows.{rows}
use pdq.PyModule.Bindings.{Python, returned, py_exact_search}
use pdq.PyModule.Searches.{py_exact_search-rows}
use pdq.Examples.Data.{ip}
use pdq.Examples.World.{path, hasher, before, after, done}
use pdq.Examples.Engine.{engine, corpus, corpus-indexed, empty-IsCoherent}

resolve_file_paths-eq_example :
    lookup
      (codes "5")
      (resolve_file_paths hasher (codes "5" ∷ []) (codes "x" ∷ path ∷ codes "b.parquet" ∷ []))
    ≡ (if has (codes "5" ∷ []) (codes "5")
        then last_with hasher
            (codes "5")
            (filter is_parquet (codes "x" ∷ path ∷ codes "b.parquet" ∷ []))
            none
        else none)
resolve_file_paths-eq_example =
    resolve_file_paths-eq hasher (codes "5" ∷ []) (codes "x" ∷ path ∷ codes "b.parquet" ∷ [])
      (codes "5")

index_file-listed_example :
    (has (list_indexed_files list_fst after.index) (calculate_file_hash hasher path) ≡ true)
    × ((columns : List Str) × (get_available_columns list_fst
            (calculate_file_hash hasher path)
            after.index
          ≡ ok columns)
        × IsSorted columns
        × (has columns ip ≡ true))
index_file-listed_example = index_file-listed list_fst hasher path ip before after done refl refl

abbrev python : Python
python = record {
  Batch = List Str × List ℕ;
  Table = List (List Str × List ℕ);
  try_new = λ paths groups. ok (paths, groups);
  into_pyobject = λ batches. returned batches;
}

py_exact_search-rows_example :
    ((py_exact_search list_fst after.index python true engine ip (codes "b") []).0
      ≡ returned (
          (
            map (λ r. r.0) (rows (scan_corpus (is_exact (codes "b")) ip corpus)),
            map (λ r. r.1) (rows (scan_corpus (is_exact (codes "b")) ip corpus)),
          )
          ∷ []))
    × IsCoherent list_fst after.index
        (py_exact_search list_fst after.index python true engine ip (codes "b") []).1
py_exact_search-rows_example =
    py_exact_search-rows hasher list_fst after.index engine ip corpus python (codes "b") []
      corpus-indexed empty-IsCoherent
