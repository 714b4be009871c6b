-- ===== src/Provider/Prune.antt =====
-- `extract_equality_filter` and `prune_with_fst_index` of provider.rs. The `HashMap`s are association
-- lists and the `HashSet`s are lists without repetitions.
pub mod Laws
pub mod Afresh
pub mod Needs
pub mod Corpus
pub mod Paths
use pdq.Prelude.{ℕ, Option, none, some, List, [], ◌∷◌, filter, map}
use pdq.Prelude.Result.{Result, ok, err}
use pdq.Text.{Str}
use pdq.Assoc.{Map, lookup, insert, str_key}
use pdq.Fst.{Fst}
use pdq.IndexDir.{IndexDir}
use pdq.RowSet.{contains, from_vec, sort_unstable}
use pdq.Index.World.{calculate_file_hash}
use pdq.Query.Engine.{Engine, FstCache, FileMatches, exact_search}

pub data Operator : Type 0 where
  op_eq op_other : Operator

-- DataFusion's `Expr`: a literal is the text that `ScalarValue::to_string` makes of it.
pub data Expr : Type 0 where
  column : Str → Expr
  literal : Str → Expr
  binary : Expr → Operator → Expr → Expr
  other_expr : Expr

unfoldable pub extract_equality_filter : Expr → Option (Str × Str)
extract_equality_filter (binary (column name) op_eq (literal value)) = some (name, value)
extract_equality_filter (binary (literal value) op_eq (column name)) = some (name, value)
extract_equality_filter _ = none

-- `file_row_groups` and `hash_to_path`
pub record Pruned : Type 0 where
  pub file_row_groups : Map Str (List ℕ)
  pub hash_to_path : Map Str Str

-- An occupied entry is intersected with the new set, a vacant one is filled.
unfoldable pub intersect : Option (List ℕ) → List ℕ → List ℕ
intersect none row_group_set = row_group_set
intersect (some old) row_group_set = filter (λ g. contains g row_group_set) old

abbrev pub sort_groups : Str × List ℕ → Str × List ℕ
sort_groups (file_hash, row_group_set) = (file_hash, sort_unstable row_group_set)

module _ (hasher : Str → ℕ) where
  unfoldable pub add_match : FileMatches → Pruned → Pruned
  unfolding calculate_file_hash intersect from_vec lookup insert
  add_match m p =
      let file_hash = calculate_file_hash hasher m.file_path in
      let groups = intersect (lookup file_hash p.file_row_groups) (from_vec m.row_groups) in
      record {
        file_row_groups = insert file_hash groups p.file_row_groups;
        hash_to_path = insert file_hash m.file_path p.hash_to_path;
      }

  unfoldable pub add_matches : List FileMatches → Pruned → Pruned
  unfolding add_match
  add_matches [] p = p
  add_matches (m ∷ ms) p = add_matches ms (add_match m p)

  -- `if let … && let Ok(results) = …`: an error of the search is passed over.
  unfoldable pub add_results : Result (List FileMatches) → Pruned → Pruned
  unfolding add_matches
  add_results (err e) p = p
  add_results (ok results) p = add_matches results p

  module _ (fst : Fst) (index_dir : IndexDir fst) (e : Engine) where
    unfoldable pub prune_filter : Option (Str × Str) → Pruned → FstCache fst → Pruned × FstCache fst
    unfolding add_results exact_search
    prune_filter none p cache = (p, cache)
    prune_filter (some (name, value)) p cache =
        let (results, cache') = exact_search fst index_dir e name value cache in
        (add_results results p, cache')

    unfoldable pub prune_filters : List Expr → Pruned → FstCache fst → Pruned × FstCache fst
    unfolding prune_filter extract_equality_filter
    prune_filters [] p cache = (p, cache)
    prune_filters (f ∷ fs) p cache =
        let (p', cache') = prune_filter (extract_equality_filter f) p cache in
        prune_filters fs p' cache'

    unfoldable pub prune_with_fst_index : List Expr → FstCache fst → Pruned × FstCache fst
    unfolding prune_filters sort_unstable
    prune_with_fst_index filters cache =
        let (p, cache') =
          prune_filters filters (record { file_row_groups = []; hash_to_path = [] }) cache in
        (record p { file_row_groups = map sort_groups p.file_row_groups }, cache')
