-- ===== src/Query/Engine.antt =====
-- `IndexQueryEngine` of query.rs: the maps that it reads once from the index directory, the cache of
-- opened FSTs, and the searches over all indexed files. The cache is the state; the parallel loop
-- over the files is run in the order of the file map.
pub mod Cache
pub mod Totals
pub mod Corpus
pub mod Prefix
pub mod Races
use mathlib.Core.Option
use pdq.Prelude.{
  ℕ, zero, suc, ◌+◌, ◌%◌, Bool, true, false, Option, none, some, List, [], ◌∷◌, ◌++◌, map,
  if◌then◌else◌, is_empty,
}
use pdq.Prelude.Result.{Result, ok, err, io, bad_fst}
use pdq.Prelude.Exec.{Exec, pure, lift, ◌>>=◌}
use pdq.Text.{Str, codes}
use pdq.Text.Decimal.{parse_usize, word}
use pdq.Text.Lines.{lines}
use pdq.Assoc.{Map, lookup, insert, str_key, pair_key}
use pdq.Fst.{Fst}
use pdq.IndexDir.{
  OnDisk, missing, unreadable, present, HashDir, Node, plain, dir, IndexDir, fst_file,
}
use pdq.Query.Search.{search_set, set_has_term, prefix_search_set, range_search_set}

pub record FileMatches : Type 0 where
  pub file_path : Str
  pub row_groups : List ℕ

-- `format!("file-{}", file_hash)`
unfoldable pub fallback_path : Str → Str
fallback_path file_hash = codes "file-" ++ file_hash

unfoldable pub nth : ℕ → List Str → Option Str
nth n [] = none
nth zero (l ∷ ls) = some l
nth (suc n) (l ∷ ls) = nth n ls

abbrev ok_value : {A : Type 0} → Result A → Option A
ok_value (ok a) = some a
ok_value (err e) = none

-- `lines.nth(2).and_then(|l| l.parse::<usize>().ok())`, of the lines behind the first
unfoldable pub count_line : List Str → Option ℕ
unfolding nth parse_usize
count_line rest = elim (nth 2 rest) [ none ↦ none | some l ↦ ok_value (parse_usize l) ]

abbrev pub Maps : Type 0
Maps = Map Str Str × Map Str ℕ

unfoldable pub add_counts : Str → Option ℕ → Map Str ℕ → Map Str ℕ
unfolding insert
add_counts file_hash none counts = counts
add_counts file_hash (some n) counts = insert file_hash n counts

-- A folder whose `metadata.txt` has a first line.
unfoldable pub add_lines : Str → List Str → Maps → Maps
unfolding insert add_counts count_line fallback_path
add_lines file_hash [] (paths, counts) = (insert file_hash (fallback_path file_hash) paths, counts)
add_lines file_hash (original_path ∷ rest) (paths, counts) =
    (insert file_hash original_path paths, add_counts file_hash (count_line rest) counts)

unfoldable pub metadata_lines : OnDisk Str → List Str
unfolding lines
metadata_lines (present contents) = lines contents
metadata_lines _ = []

pub record Engine : Type 0 where
  pub file_map : Map Str Str
  pub row_group_counts : Map Str ℕ

unfoldable pub num_row_groups : Engine → Str → Option ℕ
unfolding lookup
num_row_groups e file_hash = lookup file_hash e.row_group_counts

module _ (fst : Fst) where
  unfoldable pub add_entry : Str → Node fst → Maps → Maps
  unfolding add_lines metadata_lines
  add_entry file_hash plain maps = maps
  add_entry file_hash (dir d) maps = add_lines file_hash (metadata_lines d.metadata) maps

  unfoldable pub build_maps : IndexDir fst → Maps → Maps
  unfolding add_entry
  build_maps [] maps = maps
  build_maps ((file_hash, node) ∷ entries) maps = build_maps entries (add_entry file_hash node maps)

  unfoldable pub build_file_map : IndexDir fst → Maps
  unfolding build_maps
  build_file_map index_dir = build_maps index_dir ([], [])

  -- The cache of opened FSTs, by file hash and column.
  abbrev pub FstCache : Type 0
  FstCache = Map (Str × Str) fst.Keys

  -- `new`: the cache starts empty.
  unfoldable pub new : IndexDir fst → Engine × FstCache
  unfolding build_file_map
  new index_dir =
      let (file_map, row_group_counts) = build_file_map index_dir in
      (record { file_map = file_map; row_group_counts = row_group_counts }, [])

  -- `cache.entry(key).or_insert(set)`: the first winner stays.
  unfoldable pub or_insert : Str × Str → fst.Keys → FstCache → fst.Keys × FstCache
  unfolding lookup insert
  or_insert key set cache = elim (lookup key cache) [
    | some resident ↦ (resident, cache)
    | none ↦ (set, insert key set cache)
  ]

  -- Open, map and validate: the slow path before the cache is locked.
  unfoldable pub open_set : OnDisk fst.Image → Result (Option fst.Keys)
  open_set missing = ok none
  open_set unreadable = err io
  open_set (present image) = elim (fst.open_image image) [
    | none ↦ err bad_fst
    | some set ↦ ok (some set)
  ]

  unfoldable pub load_set : IndexDir fst → Str → Str → Result (Option fst.Keys)
  unfolding open_set fst_file
  load_set index_dir file_hash column = open_set (fst_file fst file_hash column index_dir)

  unfoldable pub publish : Str × Str → Result (Option fst.Keys) → Exec FstCache (Option fst.Keys)
  unfolding or_insert
  publish key (err e) cache = (err e, cache)
  publish key (ok none) cache = (ok none, cache)
  publish key (ok (some set)) cache =
      let (resident, cache') = or_insert key set cache in (ok (some resident), cache')

  unfoldable pub get_or_load_set : IndexDir fst → Str → Str → Exec FstCache (Option fst.Keys)
  unfolding load_set publish lookup
  get_or_load_set index_dir file_hash column cache = elim (lookup (file_hash, column) cache) [
    | some set ↦ (ok (some set), cache)
    | none ↦ publish (file_hash, column) (load_set index_dir file_hash column) cache
  ]

  -- `if row_groups.is_empty() { Ok(None) } else { Ok(Some((file_hash, row_groups))) }`
  unfoldable pub keep_matches : Str → List ℕ → Option (Str × List ℕ)
  keep_matches file_hash row_groups =
      if is_empty row_groups then none else some (file_hash, row_groups)

  unfoldable pub search_file :
      (fst.Keys → Result (List ℕ)) → Str → Option fst.Keys → Result (Option (Str × List ℕ))
  unfolding keep_matches
  search_file search file_hash none = ok none
  search_file search file_hash (some set) = elim (search set) [
    | err e ↦ err e
    | ok row_groups ↦ ok (keep_matches file_hash row_groups)
  ]

  search_files :
      IndexDir fst
      → Str
      → (fst.Keys → Result (List ℕ))
      → List (Str × Str)
      → Exec FstCache (List (Option (Str × List ℕ)))
  unfolding get_or_load_set search_file
  search_files index_dir column search [] = pure []
  search_files index_dir column search ((file_hash, _) ∷ files) = do
    set ← get_or_load_set index_dir file_hash column
    r ← lift (search_file search file_hash set)
    rest ← search_files index_dir column search files
    pure (r ∷ rest)

  unfoldable pub to_matches : Map Str Str → List (Option (Str × List ℕ)) → List FileMatches
  unfolding lookup fallback_path
  to_matches file_map [] = []
  to_matches file_map (none ∷ rs) = to_matches file_map rs
  to_matches file_map (some (file_hash, row_groups) ∷ rs) =
      record {
        file_path = Option.get_or (lookup file_hash file_map) (fallback_path file_hash);
        row_groups = row_groups;
      }
      ∷ to_matches file_map rs

  unfoldable pub search_all :
      IndexDir fst → Engine → Str → (fst.Keys → Result (List ℕ)) → Exec FstCache (List FileMatches)
  unfolding search_files to_matches
  search_all index_dir e column search = do
    results ← search_files index_dir column search e.file_map
    pure (to_matches e.file_map results)

  unfoldable pub exact_search : IndexDir fst → Engine → Str → Str → Exec FstCache (List FileMatches)
  unfolding search_all
  exact_search index_dir e column term =
      search_all index_dir e column (λ set. search_set fst set term)

  unfoldable pub prefix_search :
      IndexDir fst → Engine → Str → Str → Exec FstCache (List FileMatches)
  unfolding search_all
  prefix_search index_dir e column prefix =
      search_all index_dir e column (λ set. prefix_search_set fst set prefix)

  unfoldable pub range_search :
      IndexDir fst → Engine → Str → Str → Str → Exec FstCache (List FileMatches)
  unfolding search_all
  range_search index_dir e column start end =
      search_all index_dir e column (λ set. range_search_set fst set start end)

  -- `for term in terms { if set_has_term(&set, term) { hits += 1; } }`
  unfoldable pub count_terms : Option fst.Keys → List Str → ℕ
  count_terms none terms = 0
  count_terms (some set) [] = 0
  count_terms (some set) (term ∷ terms) =
      (if set_has_term fst set term then 1 else 0) + count_terms (some set) terms

  unfoldable pub count_files : IndexDir fst → Str → List Str → List (Str × Str) → Exec FstCache ℕ
  unfolding get_or_load_set count_terms
  count_files index_dir column terms [] = pure 0
  count_files index_dir column terms ((file_hash, _) ∷ files) = do
    set ← get_or_load_set index_dir file_hash column
    rest ← count_files index_dir column terms files
    pure ((count_terms set terms + rest) % word)

  unfoldable pub exact_search_multi : IndexDir fst → Engine → Str → List Str → Exec FstCache ℕ
  unfolding count_files
  exact_search_multi index_dir e column terms = count_files index_dir column terms e.file_map
