-- ===== src/Provider/Prune/Afresh.antt =====
-- `prune_with_fst_index` over the answers that each filter gets when every FST is opened anew.
use pdq.Prelude.{
  ℕ, ◌≡◌, refl, ap, ◌∙◌, ◌&&◌, Option, none, some, List, [], ◌∷◌, ◌++◌, any, all, arith,
}
use pdq.Prelude.Result.{Result, ok, err}
use pdq.Text.{Str}
use pdq.Assoc.{lookup, str_key}
use pdq.Fst.{Fst}
use pdq.IndexDir.{IndexDir}
use pdq.Query.Search.{search_set}
use pdq.Query.Engine.{Engine, FstCache, FileMatches, exact_search}
use pdq.Query.Engine.Cache.{IsCoherent, search_all_afresh, search_all-Returns}
use pdq.Provider.Prune.{
  Expr, Pruned, extract_equality_filter, add_results, add_matches, prune_filter, prune_filters,
  prune_with_fst_index,
}
use pdq.Provider.Prune.Laws.{
  is_of, allows, is_kept, is_kept-sort_groups, is_present-add_matches, admits-add_matches,
  add_matches-append,
}

abbrev pub ok_or_empty : Result (List FileMatches) → List FileMatches
ok_or_empty (ok ms) = ms
ok_or_empty (err e) = []

abbrev pub no_groups : Pruned
no_groups = record { file_row_groups = []; hash_to_path = [] }

module _ (hasher : Str → ℕ) (fst : Fst) (index_dir : IndexDir fst) (e : Engine) where
  -- What the exact search of one filter finds, which is nothing where it fails.
  abbrev pub answer : Option (Str × Str) → List FileMatches
  answer none = []
  answer (some (name, value)) =
      ok_or_empty (search_all_afresh fst index_dir e name (λ set. search_set fst set value))

  abbrev pub answers : List Expr → List FileMatches
  answers [] = []
  answers (f ∷ fs) = answer (extract_equality_filter f) ++ answers fs

  add_results-ok_or_empty :
      (r : Result (List FileMatches)) (p : Pruned)
      → add_results hasher r p ≡ add_matches hasher (ok_or_empty r) p
  unfolding add_results add_matches
  add_results-ok_or_empty (ok ms) p = refl
  add_results-ok_or_empty (err x) p = refl

  prune_filter-eq :
      (f : Option (Str × Str)) (p : Pruned) (cache : FstCache fst)
      → IsCoherent fst index_dir cache
      → ((prune_filter hasher fst index_dir e f p cache).0 ≡ add_matches hasher (answer f) p)
        × IsCoherent fst index_dir (prune_filter hasher fst index_dir e f p cache).1
  unfolding prune_filter exact_search add_matches
  prune_filter-eq none p cache c = (refl, c)
  prune_filter-eq (some (name, value)) p cache c =
      let h = search_all-Returns fst index_dir e name (λ set. search_set fst set value) in
      (
        ap (λ r. add_results hasher r p) (h.result cache c)
            ∙ add_results-ok_or_empty
                (search_all_afresh fst index_dir e name (λ set. search_set fst set value)) p,
        h.keeps cache c,
      )

  prune_filters-eq :
      (fs : List Expr) (p : Pruned) (cache : FstCache fst)
      → IsCoherent fst index_dir cache
      → ((prune_filters hasher fst index_dir e fs p cache).0 ≡ add_matches hasher (answers fs) p)
        × IsCoherent fst index_dir (prune_filters hasher fst index_dir e fs p cache).1
  unfolding prune_filters add_matches
  prune_filters-eq [] p cache c = (refl, c)
  prune_filters-eq (f ∷ fs) p cache c =
      let (first, c') = prune_filter-eq (extract_equality_filter f) p cache c in
      let (p', cache') = prune_filter hasher fst index_dir e (extract_equality_filter f) p cache in
      let (rest, c'') = prune_filters-eq fs p' cache' c' in
      (
        rest
            ∙ ap (add_matches hasher (answers fs)) first
            ∙ (rw (add_matches-append hasher (answer (extract_equality_filter f)) (answers fs) p)
                refl),
        c'',
      )

  -- From a coherent cache, pruning keeps a row group of a file exactly if some filter's search
  -- matches the file and every match of the file lists the row group; the cache stays coherent.
  pub prune_with_fst_index-kept :
      (filters : List Expr) (cache : FstCache fst)
      → IsCoherent fst index_dir cache
      → ((g : ℕ) (file_hash : Str)
          → is_kept g file_hash (prune_with_fst_index hasher fst index_dir e filters cache).0 ≡ (
              any (is_of hasher file_hash) (answers filters)
              && all (allows hasher file_hash g) (answers filters)))
        × IsCoherent fst index_dir (prune_with_fst_index hasher fst index_dir e filters cache).1
  unfolding prune_with_fst_index lookup
  prune_with_fst_index-kept filters cache c =
      let (merged, c') = prune_filters-eq filters no_groups cache c in
      (
        λ g file_hash.
            is_kept-sort_groups g file_hash _
            ∙ ap (is_kept g file_hash) merged
            ∙ (rw
                (
                  is_present-add_matches hasher file_hash (answers filters) no_groups,
                  admits-add_matches hasher file_hash g (answers filters) no_groups,
                )
                (ground arith)),
        c',
      )

  -- The paths that pruning records are those of the matches of all filters.
  pub hash_to_path-eq :
      (filters : List Expr) (cache : FstCache fst)
      → IsCoherent fst index_dir cache
      → (prune_with_fst_index hasher fst index_dir e filters cache).0.hash_to_path
        ≡ (add_matches hasher (answers filters) no_groups).hash_to_path
  unfolding prune_with_fst_index
  hash_to_path-eq filters cache c =
      ap (λ p. p.hash_to_path) (prune_filters-eq filters no_groups cache c).0
