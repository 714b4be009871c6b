-- ===== src/Provider/Scan.antt =====
-- `scan`, `row_group_count` and `supports_filters_pushdown` of provider.rs. DataFusion's session and
-- the file system are parameters.
pub mod Laws
pub mod Empty
pub mod Corpus
use pdq.Prelude.{ℕ, Option, none, some, List, [], ◌∷◌, filter, map, ltb, if◌then◌else◌, is_empty}
use pdq.Prelude.Result.{Result, ok, err, ◌>>=◌}
use pdq.Text.{Str}
use pdq.Assoc.{Map, lookup, str_key}
use pdq.Fst.{Fst}
use pdq.IndexDir.{IndexDir}
use pdq.Query.Engine.{Engine, FstCache, num_row_groups}
use pdq.Provider.Prune.{Expr, Pruned, prune_with_fst_index}

-- What planning asks of DataFusion.
pub record Session : Type 1 where
  pub Predicate : Type 0
  -- `lit(true)`
  pub lit_true : Predicate
  -- `DFSchema::try_from` of the table's schema
  pub df_schema : Result (Unit {0})
  -- `create_physical_expr` of the conjunction
  pub create_physical_expr : List Expr → Result Predicate
  -- `runtime_env().object_store`
  pub object_store : Result (Unit {0})
  -- `with_projection_indices`
  pub check_projection : Option (List ℕ) → Result (Unit {0})

-- What planning asks of the file system.
pub record Disk : Type 0 where
  -- `dunce::canonicalize`
  pub canonicalize : Str → Option Str
  -- `std::fs::metadata(…).len()`
  pub file_len : Str → Option ℕ
  -- `File::open` and `ParquetRecordBatchReaderBuilder::try_new`, then `num_row_groups`
  pub footer_row_groups : Str → Result ℕ
  -- `ObjectStorePath::from_absolute_path`
  pub object_store_path : Str → Option Str

-- A `PartitionedFile` with the `ParquetAccessPlan` that it carries: the row groups passed to `scan`,
-- of a plan made by `new_none(total)`.
pub record ScanFile : Type 0 where
  pub path : Str
  pub size : ℕ
  pub total : ℕ
  pub scanned : List ℕ

pub record ScanPlan (s : Session) : Type 0 where
  pub projection : Option (List ℕ)
  pub limit : Option ℕ
  pub predicate : Option s.Predicate
  pub metadata_size_hint : Option ℕ
  pub files : List ScanFile

pub data FilterPushDown : Type 0 where
  unsupported inexact exact : FilterPushDown

unfoldable pub supports_filters_pushdown : List Expr → List FilterPushDown
supports_filters_pushdown filters = map (λ _. inexact) filters

-- `conjunction(filters)`, which is `None` for no filters, made physical.
abbrev pub physical_predicate : (s : Session) → List Expr → Result s.Predicate
physical_predicate s [] = ok s.lit_true
physical_predicate s (f ∷ fs) = s.create_physical_expr (f ∷ fs)

abbrev len_or_zero : Option ℕ → ℕ
len_or_zero none = 0
len_or_zero (some n) = n

module _ (disk : Disk) (e : Engine) where
  abbrev count_or_footer : Str → Option ℕ → Result ℕ
  count_or_footer file_path (some count) = ok count
  count_or_footer file_path none = disk.footer_row_groups file_path

  unfoldable pub row_group_count : Str → Str → Result ℕ
  unfolding num_row_groups
  row_group_count file_hash file_path = count_or_footer file_path (num_row_groups e file_hash)

  abbrev with_file : ℕ → ℕ → List ℕ → Option Str → Option ScanFile
  with_file size total scanned none = none
  with_file size total scanned (some path) =
      some (record { path = path; size = size; total = total; scanned = scanned })

  -- The access plan of a file with `total` row groups, unless nothing of it is to be scanned.
  unfoldable pub plan_groups : Str → List ℕ → ℕ → Option ScanFile
  plan_groups canonical_path row_groups total =
      let scanned = filter (λ rg. ltb rg total) row_groups in
      let size = len_or_zero (disk.file_len canonical_path) in
      if is_empty scanned
      then none
      else with_file size total scanned (disk.object_store_path canonical_path)

  unfoldable pub plan_canonical : Str → List ℕ → Option Str → Result (Option ScanFile)
  unfolding row_group_count plan_groups
  plan_canonical file_hash row_groups none = ok none
  plan_canonical file_hash row_groups (some canonical_path) = do
    total_rgs ← row_group_count file_hash canonical_path
    ok (plan_groups canonical_path row_groups total_rgs)

  unfoldable pub plan_path : Str → List ℕ → Option Str → Result (Option ScanFile)
  unfolding plan_canonical
  plan_path file_hash row_groups none = ok none
  plan_path file_hash row_groups (some file_path) =
      plan_canonical file_hash row_groups (disk.canonicalize file_path)

  -- The body of the loop over `file_row_groups`; `continue` is `none`.
  unfoldable pub plan_file : Map Str Str → Str → List ℕ → Result (Option ScanFile)
  unfolding plan_path lookup
  plan_file hash_to_path file_hash row_groups =
      if is_empty row_groups
      then ok none
      else plan_path file_hash row_groups (lookup file_hash hash_to_path)

  abbrev pub with_option : Option ScanFile → List ScanFile → List ScanFile
  with_option none files = files
  with_option (some f) files = f ∷ files

  unfoldable pub plan_files : Map Str Str → Map Str (List ℕ) → Result (List ScanFile)
  unfolding plan_file
  plan_files hash_to_path [] = ok []
  plan_files hash_to_path ((file_hash, row_groups) ∷ rest) = do
    f ← plan_file hash_to_path file_hash row_groups
    files ← plan_files hash_to_path rest
    ok (with_option f files)

module _ (hasher : Str → ℕ) (fst : Fst) (index_dir : IndexDir fst) (e : Engine) (disk : Disk)
    (s : Session) (hint : Option ℕ) where
  -- No matches: an empty plan, without a predicate and a reader factory.
  unfoldable pub empty_plan : Option (List ℕ) → Option ℕ → Result (ScanPlan s)
  empty_plan projection limit = do
    _ ← s.check_projection projection
    ok (record {
      projection = projection;
      limit = limit;
      predicate = none;
      metadata_size_hint = none;
      files = [];
    })

  unfoldable pub matched_plan :
      Option (List ℕ) → List Expr → Option ℕ → Pruned → Result (ScanPlan s)
  unfolding plan_files
  matched_plan projection filters limit p = do
    _ ← s.df_schema
    predicate ← physical_predicate s filters
    _ ← s.object_store
    _ ← s.check_projection projection
    files ← plan_files disk e p.hash_to_path p.file_row_groups
    ok (record {
      projection = projection;
      limit = limit;
      predicate = some predicate;
      metadata_size_hint = hint;
      files = files;
    })

  unfoldable pub scan_pruned : Option (List ℕ) → List Expr → Option ℕ → Pruned → Result (ScanPlan s)
  unfolding empty_plan matched_plan
  scan_pruned projection filters limit p =
      if is_empty p.file_row_groups
      then empty_plan projection limit
      else matched_plan projection filters limit p

  unfoldable pub scan :
      Option (List ℕ) → List Expr → Option ℕ → FstCache fst → Result (ScanPlan s) × FstCache fst
  unfolding prune_with_fst_index scan_pruned
  scan projection filters limit cache =
      let (p, cache') = prune_with_fst_index hasher fst index_dir e filters cache in
      (scan_pruned projection filters limit p, cache')
