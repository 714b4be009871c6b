-- ===== src/Provider/Scan/Corpus.antt =====
-- From the filters of a query to the row groups that its plan reads, against a full scan of the data.
use pdq.Prelude.{
  length, ℕ, ◌<◌, ◌≡◌, refl, ap, ◌∙◌, true, false, ◌&&◌, Option, none, some, List, [], ◌∷◌, any,
  all, is_empty,
}
use pdq.Prelude.Result.{ok, >>=-eq-ok, ok-injective}
use pdq.Text.{Str}
use pdq.Assoc.{Map, lookup, str_key}
use pdq.Fst.{Fst}
use pdq.IndexDir.{IndexDir}
use pdq.Parquet.{RowGroup}
use pdq.RowSet.{contains}
use pdq.Index.World.{calculate_file_hash}
use pdq.Query.Engine.{Engine, FstCache, num_row_groups}
use pdq.Query.Engine.Cache.{IsCoherent}
use pdq.Query.Engine.Corpus.{Corpus}
use pdq.Provider.Prune.{Expr, Pruned, prune_with_fst_index}
use pdq.Provider.Prune.Laws.{is_present, admits, is_kept}
use pdq.Provider.Prune.Needs.{is_equality, holds_in, any-finds}
use pdq.Provider.Prune.Corpus.{AllOther, AllIndexedFor, prune_with_fst_index-keeps}
use pdq.Provider.Prune.Paths.{hash_to_path-known}
use pdq.Provider.Scan.{
  Session, Disk, ScanPlan, row_group_count, plan_files, matched_plan, scan_pruned, scan,
  physical_predicate,
}
use pdq.Provider.Scan.Laws.{reads, plan_files-reads}

-- A row group that is kept stands in the entry of its file.
kept-entry :
    (g : ℕ) (o : Option (List ℕ))
    → (is_present o && admits g o) ≡ true
    → (gs : List ℕ) × (o ≡ some gs) × (contains g gs ≡ true)
kept-entry g none h = cc
kept-entry g (some gs) h = (gs, refl, h)

entry-not_empty :
    (k : Str) (m : Map Str (List ℕ)) (gs : List ℕ) → lookup k m ≡ some gs → is_empty m ≡ false
unfolding lookup
entry-not_empty k [] gs e = cc
entry-not_empty k (x ∷ m) gs e = refl

module _ (hasher : Str → ℕ) (fst : Fst) (index_dir : IndexDir fst) (e : Engine) (disk : Disk)
    (s : Session) (hint : Option ℕ) where
  -- The files of a plan that was made are those that the loop over the pruned files gave.
  matched_plan-files :
      (projection : Option (List ℕ)) (filters : List Expr) (limit : Option ℕ) (p : Pruned)
      (plan : ScanPlan s)
      → matched_plan hasher fst index_dir e disk s hint projection filters limit p ≡ ok plan
      → plan_files disk e p.hash_to_path p.file_row_groups ≡ ok plan.files
  unfolding matched_plan
  matched_plan-files projection filters limit p plan done =
      let (a, _, more) = >>=-eq-ok s.df_schema _ done in
      let (b, _, more') = >>=-eq-ok (physical_predicate s filters) _ more in
      let (c, _, more'') = >>=-eq-ok s.object_store _ more' in
      let (d, _, more''') = >>=-eq-ok (s.check_projection projection) _ more'' in
      let (files, planned, last) =
        >>=-eq-ok (plan_files disk e p.hash_to_path p.file_row_groups) _ more''' in
      planned ∙ ap (λ (x : ScanPlan s). ok x.files) (ok-injective last)

  scan_pruned-reads :
      (projection : Option (List ℕ)) (filters : List Expr) (limit : Option ℕ) (p : Pruned)
      (plan : ScanPlan s) (file_hash path canonical object : Str) (total g : ℕ)
      → scan_pruned hasher fst index_dir e disk s hint projection filters limit p ≡ ok plan
      → is_kept g file_hash p ≡ true
      → lookup file_hash p.hash_to_path ≡ some path
      → disk.canonicalize path ≡ some canonical
      → row_group_count disk e file_hash canonical ≡ ok total
      → disk.object_store_path canonical ≡ some object
      → g < total
      → any (reads object g) plan.files ≡ true
  unfolding scan_pruned
  scan_pruned-reads projection filters limit p plan file_hash path canonical object total g done
        kept known there counted stored below =
      let (gs, found, held) = kept-entry g (lookup file_hash p.file_row_groups) kept in
      let done' = rw (scan_pruned, entry-not_empty file_hash p.file_row_groups gs found) at done in
      plan_files-reads disk e p.hash_to_path file_hash path canonical object total g known there
        counted stored below p.file_row_groups gs plan.files found held
        (matched_plan-files projection filters limit p plan done')

  module _ (path : Str) (groups : List RowGroup) (before after : Corpus)
      (other_before : AllOther hasher path before) (other_after : AllOther hasher path after) where
    -- For a file with a hash of its own, in a corpus that is indexed on the column of every
    -- equality filter, and from a coherent cache: if some filter is an equality filter, and a full
    -- scan finds in a row group of the file, for every equality filter, its value or a value that
    -- begins with it and a byte 0, and `scan` succeeds, then its plan reads the row group, provided
    -- that the path of the file can be made canonical and names an object, and that the engine
    -- knows of the file the number of row groups that it has.
    pub scan-reads :
        (projection : Option (List ℕ)) (filters : List Expr) (limit : Option ℕ)
        (cache : FstCache fst) (plan : ScanPlan s) (canonical object : Str) (g : ℕ)
        → AllIndexedFor hasher path groups before after other_before other_after fst index_dir e
            filters
        → IsCoherent fst index_dir cache
        → any is_equality filters ≡ true
        → all (holds_in g groups) filters ≡ true
        → (scan hasher fst index_dir e disk s hint projection filters limit cache).0 ≡ ok plan
        → disk.canonicalize path ≡ some canonical
        → num_row_groups e (calculate_file_hash hasher path) ≡ some (length groups)
        → disk.object_store_path canonical ≡ some object
        → g < length groups
        → any (reads object g) plan.files ≡ true
    unfolding scan row_group_count
    scan-reads projection filters limit cache plan canonical object g indexed c equality held done
          there counted stored below =
        scan_pruned-reads projection filters limit
          (prune_with_fst_index hasher fst index_dir e filters cache).0 plan
          (calculate_file_hash hasher path) path canonical object (length groups) g done
          (prune_with_fst_index-keeps hasher path groups before after other_before other_after fst
            index_dir e filters cache g indexed c equality held)
          (hash_to_path-known hasher path groups before after other_before other_after fst index_dir
            e filters cache indexed c (any-finds g groups filters equality held))
          there (rw (row_group_count, counted) refl) stored below
