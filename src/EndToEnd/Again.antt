-- ===== src/EndToEnd/Again.antt =====
-- Building an index again that is up to date.
use pdq.Prelude.{ℕ, ◌≡◌, refl, ap, false, Bool, List, [], ◌∷◌, All, filter}
use pdq.Prelude.Result.{ok}
use pdq.Text.{Str}
use pdq.Fst.{Fst}
use pdq.Index.World.{World, attempt, fault}
use pdq.Index.Indexer.{is_parquet, index_if_needed, index_each, build_index_ext, build_index}
use pdq.EndToEnd.Build.{IsBuilt, IsFit, IsCollisionFree, build_index_ext-IsBuilt}

module _ (fst : Fst) (hasher : Str → ℕ) (column : Str) (force : Bool) where
  index_each-skips :
      (paths : List Str) (w : World fst)
      → All (λ path. IsBuilt fst hasher column force path w) paths
      → index_each fst hasher column false paths w ≡ (ok tt, w)
  unfolding index_each index_if_needed
  index_each-skips [] w h = refl
  index_each-skips (path ∷ paths) w (b, bs) =
      rw (index_each, index_if_needed, b.fresh) (index_each-skips paths w bs)

  attempt-healthy : (w : World fst) → w.faults ≡ [] → attempt fst w ≡ (ok tt, w)
  unfolding attempt fault
  attempt-healthy w healthy = ap (λ fs. fault fst fs w) healthy

  -- If `build_index_ext` succeeds, the paths of the Parquet files are lines, their numbers fit 64
  -- bits and different paths have different hashes, then `build_index` on the same walk, where no
  -- write is to fail any more, succeeds and changes nothing.
  pub build_index-again :
      (entries : List Str) (w w' : World fst)
      → All (IsFit fst hasher column force w) (filter is_parquet entries)
      → IsCollisionFree fst hasher column force (filter is_parquet entries)
      → build_index_ext fst hasher entries column force w ≡ (ok tt, w')
      → w'.faults ≡ []
      → build_index fst hasher entries column w' ≡ (ok tt, w')
  unfolding build_index build_index_ext
  build_index-again entries w w' fits free done healthy =
      let built = build_index_ext-IsBuilt fst hasher column force entries w w' fits free done in
      rw (build_index, build_index_ext, attempt-healthy w' healthy)
        (index_each-skips (filter is_parquet entries) w' built)
