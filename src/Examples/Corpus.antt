-- ===== src/Examples/Corpus.antt =====
-- Prefix and range searches over all files, and a plan for the filters of a query.
use pdq.Prelude.{◌≡◌, refl, true, ◌&&◌, none, some, [], ◌∷◌, any, arith}
use pdq.Prelude.Result.{ok}
use pdq.Text.{codes, starts_with}
use pdq.Text.Order.{le_bytes}
use pdq.Text.Utf8.{encode, encode_char, from_utf8}
use pdq.Text.Decimal.{hex, decimal, parse_usize}
use pdq.RowSet.{sort_unstable}
use pdq.KeyFormat.{parse_row_group_from_key}
use pdq.Index.World.{calculate_file_hash}
use pdq.Index.Indexer.{index_file}
use pdq.Query.Search.{search_set}
use pdq.Assoc.{lookup, str_key}
use pdq.Fst.{list_fst}
use pdq.Parquet.{scan_groups}
use pdq.Query.Engine.{prefix_search, range_search}
use pdq.Query.Engine.Cache.{Returns}
use pdq.Query.Engine.Corpus.{scan_corpus}
use pdq.Query.Engine.Prefix.{prefix_search-eq-scan, range_search-eq-scan}
use pdq.Provider.Prune.{extract_equality_filter}
use pdq.Provider.Scan.{ScanPlan, scan, row_group_count}
use pdq.Provider.Scan.Laws.{reads}
use pdq.Provider.Scan.Corpus.{scan-reads}
use pdq.Examples.Data.{ip, two_groups}
use pdq.Examples.World.{path, hasher, after}
use pdq.Examples.Engine.{engine, corpus, corpus-indexed, empty-IsCoherent, filters, filters-indexed}
use pdq.Examples.Provider.{disk, session}

prefix_search-eq-scan_example :
    Returns list_fst after.index
      (prefix_search list_fst after.index engine ip (encode (b'a' ∷ [])))
      (ok (scan_corpus (λ v. starts_with v (encode (b'a' ∷ []))) ip corpus))
unfolding encode_char
prefix_search-eq-scan_example =
    prefix_search-eq-scan hasher list_fst after.index engine ip corpus corpus-indexed [] b'a'
      (refl, tt) (omega arith) (omega arith)

range_search-eq-scan_example :
    Returns list_fst after.index
      (range_search list_fst after.index engine ip (codes "ab") (codes "b"))
      (ok (scan_corpus (λ v. le_bytes (codes "ab") v && le_bytes v (codes "b")) ip corpus))
range_search-eq-scan_example =
    range_search-eq-scan hasher list_fst after.index engine ip corpus corpus-indexed (codes "ab")
      (codes "b") (omega arith) (omega arith) (omega arith)

abbrev planned_all : ScanPlan session
planned_all = record {
  projection = none;
  limit = none;
  predicate = some 0;
  metadata_size_hint = none;
  files = record { path = path; size = 9; total = 2; scanned = 0 ∷ [] } ∷ [];
}

scanned :
    (scan hasher list_fst after.index engine disk session none none filters none []).0
    ≡ ok planned_all
unfolding scan lookup hex index_file extract_equality_filter search_set parse_row_group_from_key
    decimal from_utf8 parse_usize sort_unstable
scanned = refl

scan-reads_example : any (reads path 0) planned_all.files ≡ true
unfolding lookup row_group_count extract_equality_filter scan_groups hex calculate_file_hash
scan-reads_example =
    scan-reads hasher list_fst after.index engine disk session none path two_groups [] [] tt tt none
      filters none [] planned_all path path 0 filters-indexed empty-IsCoherent refl refl scanned
      refl refl refl (omega arith)
