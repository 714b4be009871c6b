-- ===== src/Examples/Engine.antt =====
-- Searches over all files and what pruning keeps, with the engine opened on the index of one file.
use pdq.Prelude.{◌%◌, ◌≡◌, refl, true, ◌&&◌, List, [], ◌∷◌, length, any, all}
use pdq.Prelude.Result.{ok}
use pdq.Text.{codes}
use pdq.Text.Decimal.{hex, decimal, word}
use pdq.Assoc.{lookup, str_key}
use pdq.Fst.{list_fst}
use pdq.Parquet.{scan_groups}
use pdq.Index.World.{calculate_file_hash}
use pdq.Query.Search.{search_set}
use pdq.Query.Ranges.{is_exact}
use pdq.Query.Engine.{Engine, load_set, search_all, exact_search, exact_search_multi}
use pdq.Query.Engine.Cache.{
  IsCoherent, Returns, search_all_afresh, search_all-Returns, IsCoherent-empty,
}
use pdq.Query.Engine.Totals.{total}
use pdq.Query.Engine.Corpus.{
  Corpus, scan_corpus, IsIndexed, IsIndexedCorpus, exact_search-eq-scan, exact_search_multi-eq-scan,
}
use pdq.Index.Indexer.{index_file}
use pdq.Cli.{exact_type, found, run_search}
use pdq.Cli.Search.{run_search-exact}
use pdq.Provider.Prune.{
  Expr, column, literal, op_eq, binary, other_expr, extract_equality_filter, prune_with_fst_index,
}
use pdq.Provider.Prune.Laws.{is_kept}
use pdq.Provider.Prune.Needs.{finds, agrees}
use pdq.Provider.Prune.Corpus.{
  AllIndexedFor, prune_with_fst_index-eq-scan, prune_with_fst_index-keeps,
}
use pdq.Examples.Data.{ip, two_groups, two_groups_keys, two_groups-IsIndexOf}
use pdq.Examples.World.{path, hasher, after}

abbrev pub engine : Engine
engine = record { file_map = (codes "5", path) ∷ []; row_group_counts = (codes "5", 2) ∷ [] }

abbrev pub corpus : Corpus
corpus = (path, two_groups) ∷ []

indexed : IsIndexed hasher list_fst after.index engine ip (path, two_groups)
unfolding lookup load_set hex index_file decimal
indexed = record {
  named = refl;
  set = two_groups_keys;
  loaded = refl;
  index_of = two_groups-IsIndexOf;
}

pub corpus-indexed : IsIndexedCorpus hasher list_fst after.index engine ip corpus
unfolding hex calculate_file_hash
corpus-indexed = record { known = refl; indexed = (indexed, tt) }

pub empty-IsCoherent : IsCoherent list_fst after.index []
empty-IsCoherent = IsCoherent-empty list_fst after.index

search_all-Returns_example :
    Returns list_fst after.index
      (search_all list_fst after.index engine ip (λ s. search_set list_fst s (codes "b")))
      (search_all_afresh list_fst after.index engine ip (λ s. search_set list_fst s (codes "b")))
search_all-Returns_example =
    search_all-Returns list_fst after.index engine ip (λ s. search_set list_fst s (codes "b"))

exact_search-eq-scan_example :
    Returns list_fst after.index
      (exact_search list_fst after.index engine ip (codes "b"))
      (ok (scan_corpus (is_exact (codes "b")) ip corpus))
exact_search-eq-scan_example =
    exact_search-eq-scan hasher list_fst after.index engine ip corpus corpus-indexed (codes "b")

exact_search_multi-eq-scan_example :
    Returns list_fst after.index
      (exact_search_multi list_fst after.index engine ip (codes "b" ∷ codes "c" ∷ []))
      (ok (
        total (λ t. length (scan_corpus (is_exact t) ip corpus)) (codes "b" ∷ codes "c" ∷ [])
        % word))
exact_search_multi-eq-scan_example =
    exact_search_multi-eq-scan hasher list_fst after.index engine ip corpus corpus-indexed
      (codes "b" ∷ codes "c" ∷ [])

abbrev pub filters : List Expr
filters = binary (column ip) op_eq (literal (codes "ab")) ∷ other_expr ∷ []

pub filters-indexed :
    AllIndexedFor hasher path two_groups [] [] tt tt list_fst after.index engine filters
unfolding extract_equality_filter
filters-indexed = (corpus-indexed, (tt, tt))

prune_with_fst_index-eq-scan_example :
    is_kept 1
      (calculate_file_hash hasher path)
      (prune_with_fst_index hasher list_fst after.index engine filters []).0
    ≡ (any (finds two_groups) filters && all (agrees 1 two_groups) filters)
prune_with_fst_index-eq-scan_example =
    prune_with_fst_index-eq-scan hasher path two_groups [] [] tt tt list_fst after.index engine
      filters [] 1 filters-indexed empty-IsCoherent

prune_with_fst_index-keeps_example :
    is_kept 0
      (calculate_file_hash hasher path)
      (prune_with_fst_index hasher list_fst after.index engine filters []).0
    ≡ true
unfolding extract_equality_filter scan_groups
prune_with_fst_index-keeps_example =
    prune_with_fst_index-keeps hasher path two_groups [] [] tt tt list_fst after.index engine
      filters [] 0 filters-indexed empty-IsCoherent refl refl

run_search-exact_example :
    Returns list_fst after.index
      (run_search list_fst after.index engine exact_type ip (codes "b"))
      (ok (found 2 1 (scan_corpus (is_exact (codes "b")) ip corpus)))
unfolding scan_groups
run_search-exact_example =
    run_search-exact hasher list_fst after.index engine ip corpus corpus-indexed (codes "b")
