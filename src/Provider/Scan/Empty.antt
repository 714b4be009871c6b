-- ===== src/Provider/Scan/Empty.antt =====
-- Queries without an equality filter.
use pdq.Prelude.{ℕ, ◌≡◌, refl, Bool, false, ◌||◌, Option, none, some, List, [], ◌∷◌, any, arith}
use pdq.Prelude.Result.{ok, ◌>>=◌}
use pdq.Text.{Str}
use pdq.Fst.{Fst}
use pdq.IndexDir.{IndexDir}
use pdq.Query.Engine.{Engine, FstCache}
use pdq.Provider.Prune.{
  Expr, Pruned, extract_equality_filter, prune_filter, prune_filters, prune_with_fst_index,
}
use pdq.Provider.Prune.Laws.{is_present}
use pdq.Provider.Prune.Needs.{is_equality}
use pdq.Provider.Prune.Afresh.{no_groups}
use pdq.Provider.Scan.{Session, Disk, empty_plan, scan_pruned, scan}

absent : {A : Type 0} (o : Option A) → is_present o ≡ false → o ≡ none
absent none h = refl
absent (some a) h = cc

or-left : (a b : Bool) → (a || b) ≡ false → a ≡ false
or-left a b h = ground arith

or-right : (a b : Bool) → (a || b) ≡ false → b ≡ false
or-right a b h = ground arith

module _ (hasher : Str → ℕ) (fst : Fst) (index_dir : IndexDir fst) (e : Engine) where
  prune_filters-none :
      (fs : List Expr) (p : Pruned) (cache : FstCache fst)
      → any is_equality fs ≡ false
      → prune_filters hasher fst index_dir e fs p cache ≡ (p, cache)
  unfolding prune_filters prune_filter
  prune_filters-none [] p cache h = refl
  prune_filters-none (f ∷ fs) p cache h =
      let ih = prune_filters-none fs p cache in
      rw
        (
          prune_filters,
          absent (extract_equality_filter f) (or-left (is_equality f) (any is_equality fs) h),
          prune_filter,
        )
        (ih (or-right (is_equality f) (any is_equality fs) h))

  -- A query without an equality filter, one without filters among them, gets a plan without any file,
  -- whatever is indexed and whatever the data: with the projection and the limit that were asked for
  -- and without a predicate. Only if the projection is refused it gets that error. The cache of FSTs
  -- is as it was.
  pub scan-no_equality :
      (disk : Disk) (s : Session) (hint limit : Option ℕ) (projection : Option (List ℕ))
      (filters : List Expr) (cache : FstCache fst)
      → any is_equality filters ≡ false
      → scan hasher fst index_dir e disk s hint projection filters limit cache ≡ (
        s.check_projection projection >>= λ _. ok (record {
          projection = projection;
          limit = limit;
          predicate = none;
          metadata_size_hint = none;
          files = [];
        }),
        cache,
      )
  unfolding scan scan_pruned prune_with_fst_index empty_plan
  scan-no_equality disk s hint limit projection filters cache h =
      rw (scan, prune_with_fst_index, prune_filters-none filters no_groups cache h) refl
