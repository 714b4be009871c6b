-- ===== src/EndToEnd/Build.antt =====
-- What `build_index_ext` has done to each Parquet file of the directory when it succeeds.
use pdq.Prelude.{
  if◌then◌else◌, ℕ, ◌≡◌, ◌⊎◌, inl, inr, sym, ap, ◌∙◌, Bool, true, false, some, List, [], ◌∷◌, All,
  filter, Bool-cases, arith,
}
use mathlib.Core.Path.{subst}
use pdq.Prelude.Result.{ok}
use pdq.Prelude.Exec.{gets, pure}
use pdq.Text.{Str, str_eq}
use pdq.Text.Lines.{IsLine}
use pdq.Assoc.{lookup, str_key}
use pdq.Fst.{Fst}
use pdq.IndexDir.{hash_dir, fst_file}
use pdq.Parquet.{RowGroup}
use pdq.Index.World.{calculate_file_hash, DataFile, World, attempt}
use pdq.Index.Metadata.{needs_indexing}
use pdq.Index.Indexer.{is_parquet, index_file, index_if_needed, index_each, build_index_ext}
use pdq.Index.Frame.{SameElsewhere, SameElsewhere-refl, index_file-frame}
use pdq.Index.Success.{>>=-inv, lift-inv, attempt-inv}
use pdq.Index.Fresh.{IsU64, needs_indexing-index_file}
use pdq.Query.FullScan.{IsIndexOf}
use pdq.Query.Engine.{load_set}
use pdq.EndToEnd.{load_set-index_file}

module _ (fst : Fst) (hasher : Str → ℕ) (column : Str) (force : Bool) where
  abbrev hash_of : Str → Str
  hash_of path = calculate_file_hash hasher path

  -- The file counts as up to date and, if indexing is forced, its index holds the row groups that the
  -- file has.
  pub record IsBuilt (path : Str) (w : World fst) : Type 0 where
    pub fresh : needs_indexing fst hasher w path column ≡ ok false
    pub complete :
        force ≡ true
        → (file : DataFile) (groups : List RowGroup) → lookup path w.files ≡ some file
        → file.groups ≡ some groups
        → (set : fst.Keys) × (load_set fst w.index (calculate_file_hash hasher path) column
            ≡ ok (some set))
          × IsIndexOf fst set column groups

  -- The data files and the folder of the path are the same.
  record SameFor (path : Str) (w w' : World fst) : Type 0 where
    files : w'.files ≡ w.files
    folder : hash_dir fst (hash_of path) w'.index ≡ hash_dir fst (hash_of path) w.index

  IsBuilt-same :
      (path : Str) (w w' : World fst) → SameFor path w w' → IsBuilt path w → IsBuilt path w'
  unfolding needs_indexing load_set fst_file
  IsBuilt-same path w w' s b = record {
    fresh = rw (needs_indexing, fst_file, s.files, s.folder) b.fresh;
    complete = λ f file groups opened parsed.
        let opened' = rw s.files at opened in
        let (set, loaded, ix) = b.complete f file groups opened' parsed in
        (set, (rw (load_set, fst_file, s.folder) loaded), ix);
  }

  -- The paths are lines and the numbers of their files fit 64 bits.
  pub record IsFit (w : World fst) (path : Str) : Type 0 where
    pub line : IsLine path
    pub numbers : (file : DataFile) → lookup path w.files ≡ some file → IsU64 file

  index_file-IsBuilt :
      (path : Str) (w w' : World fst)
      → IsFit w path
      → index_file fst hasher path column w ≡ (ok tt, w')
      → IsBuilt path w'
  index_file-IsBuilt path w w' fit done =
      let same = index_file-frame fst hasher path column w in
      let files : w'.files ≡ w.files = (ap (λ q. q.1.files) (sym done)) ∙ same.files in
      record {
        fresh = needs_indexing-index_file fst hasher path column w w' done fit.line fit.numbers;
        complete = λ f file groups opened parsed.
            let opened' = rw files at opened in
            let u = fit.numbers file opened' in
            load_set-index_file fst hasher path column w w' file groups done opened' parsed
              (let g = u.groups_fit groups parsed in omega arith);
      }

  index_file-changes :
      (path : Str) (w w' : World fst)
      → index_file fst hasher path column w ≡ (ok tt, w')
      → SameElsewhere fst (hash_of path) column w w'
  index_file-changes path w w' done =
      subst (SameElsewhere fst (hash_of path) column w) (ap (λ q. q.1) done)
        (index_file-frame fst hasher path column w)

  skip-IsBuilt :
      (path : Str) (w w' : World fst)
      → force ≡ false
      → needs_indexing fst hasher w path column ≡ ok false
      → w ≡ w'
      → IsBuilt path w' × SameElsewhere fst (hash_of path) column w w'
  skip-IsBuilt path w w' lazy done e = rw (← e) (
    record { fresh = done; complete = λ f file groups opened parsed. absurd (cc) },
    SameElsewhere-refl fst (hash_of path) column w,
  )

  decided :
      (path : Str) (w w' : World fst) (needed : Bool)
      → force ≡ false
      → IsFit w path
      → needs_indexing fst hasher w path column ≡ ok needed
      → (if needed then index_file fst hasher path column else pure tt) w ≡ (ok tt, w')
      → IsBuilt path w' × SameElsewhere fst (hash_of path) column w w'
  decided path w w' true lazy fit e done =
      (index_file-IsBuilt path w w' fit done, index_file-changes path w w' done)
  decided path w w' false lazy fit e done =
      let (x, y) = lift-inv (ok tt) w w' tt done in skip-IsBuilt path w w' lazy e y

  index_if_needed-IsBuilt :
      (path : Str) (w w' : World fst)
      → IsFit w path
      → index_if_needed fst hasher column force path w ≡ (ok tt, w')
      → IsBuilt path w' × SameElsewhere fst (hash_of path) column w w'
  unfolding index_if_needed
  index_if_needed-IsBuilt path w w' fit done = elim (Bool-cases force) [
    | inl eager ↦
        let done' = rw (index_if_needed, eager) at done in
        (index_file-IsBuilt path w w' fit done', index_file-changes path w w' done')
    | inr lazy ↦
        let done' = rw (index_if_needed, lazy) at done in
        let x = >>=-inv (gets (λ u. needs_indexing fst hasher u path column)) _ w w' tt done' in
        let (asked, same) =
          lift-inv (needs_indexing fst hasher w path column) w x.middle x.value x.first in
        decided path w w' x.value lazy fit asked (rw same x.second)
  ]

  -- A path indexed later is the same path or has another hash.
  abbrev pub Differs : Str → Str → Type 0
  Differs path later =
      (path ≡ later)
      ⊎ (str_eq (calculate_file_hash hasher later) (calculate_file_hash hasher path) ≡ false)

  -- No two different paths have the same hash.
  abbrev pub IsCollisionFree : List Str → Type 0
  IsCollisionFree [] = Unit
  IsCollisionFree (path ∷ later) = All (Differs path) later × IsCollisionFree later

  later-IsBuilt :
      (path next : Str) (w w' : World fst)
      → Differs path next
      → IsBuilt path w
      → IsBuilt next w' × SameElsewhere fst (hash_of next) column w w'
      → IsBuilt path w'
  later-IsBuilt path next w w' (inl e) b (c, s) = rw e c
  later-IsBuilt path next w w' (inr ne) b (c, s) =
      IsBuilt-same path w w' (record { files = s.files; folder = s.folders (hash_of path) ne }) b

  All-IsFit :
      (w w' : World fst) (paths : List Str)
      → w'.files ≡ w.files
      → All (IsFit w) paths
      → All (IsFit w') paths
  All-IsFit w w' [] e h = tt
  All-IsFit w w' (p ∷ ps) e (h, hs) = (
    record { line = h.line; numbers = λ file opened. h.numbers file (rw e at opened) },
    All-IsFit w w' ps e hs,
  )

  index_each-keeps :
      (paths : List Str) (path : Str) (w w' : World fst)
      → All (IsFit w) paths
      → All (Differs path) paths
      → IsBuilt path w
      → index_each fst hasher column force paths w ≡ (ok tt, w')
      → IsBuilt path w'
  unfolding index_each
  index_each-keeps [] path w w' fit d b done =
      let (x, y) = lift-inv (ok tt) w w' tt done in rw (← y) b
  index_each-keeps (next ∷ paths) path w w' (fit, fits) (d, ds) b done =
      let ih = index_each-keeps paths path in
      let x = >>=-inv (index_if_needed fst hasher column force next) _ w w' tt done in
      let s = index_if_needed-IsBuilt next w x.middle fit x.first in
      ih x.middle w' (All-IsFit w x.middle paths s.1.files fits) ds
        (later-IsBuilt path next w x.middle d b s) x.second

  index_each-IsBuilt :
      (paths : List Str) (w w' : World fst)
      → All (IsFit w) paths
      → IsCollisionFree paths
      → index_each fst hasher column force paths w ≡ (ok tt, w')
      → All (λ path. IsBuilt path w') paths
  unfolding index_each
  index_each-IsBuilt [] w w' fit free done = tt
  index_each-IsBuilt (path ∷ paths) w w' (fit, fits) (d, free) done =
      let ih = index_each-IsBuilt paths in
      let x = >>=-inv (index_if_needed fst hasher column force path) _ w w' tt done in
      let s = index_if_needed-IsBuilt path w x.middle fit x.first in
      let fits' = All-IsFit w x.middle paths s.1.files fits in
      (
        index_each-keeps paths path x.middle w' fits' d s.0 x.second,
        ih x.middle w' fits' free x.second,
      )

  pub build_index_ext-IsBuilt :
      (entries : List Str) (w w' : World fst)
      → All (IsFit w) (filter is_parquet entries)
      → IsCollisionFree (filter is_parquet entries)
      → build_index_ext fst hasher entries column force w ≡ (ok tt, w')
      → All (λ path. IsBuilt path w') (filter is_parquet entries)
  unfolding build_index_ext attempt
  build_index_ext-IsBuilt entries w w' fits free done =
      let x = >>=-inv (attempt fst) _ w w' tt done in
      let (f, i) = attempt-inv fst w.faults w x.middle x.first in
      index_each-IsBuilt (filter is_parquet entries) x.middle w'
        (All-IsFit w x.middle (filter is_parquet entries) f fits) free x.second
