-- ===== src/Query/Engine/Races/Agreement.antt =====
-- All threads see one set for each file and column, and one thread alone sees what `get_or_load_set`
-- returns.
use pdq.Prelude.{◌≡◌, refl, Option, none, some, [], ◌∷◌, All, Option-cases, inl, inr}
use pdq.Prelude.Result.{Result, ok, err}
use pdq.Assoc.{lookup, pair_key}
use pdq.Fst.{Fst}
use pdq.IndexDir.{IndexDir}
use pdq.Query.Engine.{load_set, publish, get_or_load_set}
use pdq.Query.Engine.Races.{
  Key, Threads, look_up_set, opened_set, put_set, Step, looks_up, opens, puts, Steps, done, next,
  start, IsResident, Keeps, Agrees, Step-Agrees,
}

module _ (fst : Fst) where
  Steps-Agrees :
      {r s : Threads fst} → Steps fst r s → All (IsResident fst r.cache) r.answers → Agrees fst r s
  Steps-Agrees done h = record { resident = h; kept = λ k s f. f }
  Steps-Agrees (next x xs) h =
      let a = Step-Agrees fst x h in
      let b = Steps-Agrees xs a.resident in
      record { resident = b.resident; kept = λ k s f. b.kept k s (a.kept k s f) }

  -- However the threads interleave, and whatever is written to the index directory meanwhile: every
  -- call that returned a set returned the one that is resident in the cache, so all calls for one file
  -- and column that return a set return the same one; and it stays resident in every later state.
  pub Steps-start-Agrees :
      (index_dir : IndexDir fst) (r s : Threads fst)
      → Steps fst (start fst index_dir) r
      → Steps fst r s
      → All (IsResident fst r.cache) r.answers × Keeps fst r.cache s.cache
  Steps-start-Agrees index_dir r s xs ys =
      let a = Steps-Agrees xs tt in (a.resident, (Steps-Agrees ys a.resident).kept)

  -- The thread has missed and opened the file, with this result.
  opened-Alone :
      (key : Key fst) (r : Threads fst) (l : Result (Option fst.Keys))
      → Step fst
          (record r { opening = key ∷ r.opening })
          (opened_set fst key r.opening l (record r { opening = key ∷ r.opening }))
      → (s : Threads fst) × Steps fst (record r { opening = key ∷ r.opening }) s
        × (s.cache ≡ (publish fst key l r.cache).1)
        × (s.answers ≡ (key, (publish fst key l r.cache).0) ∷ r.answers)
  unfolding opened_set publish put_set
  opened-Alone key r (err x) st = (_, next st done, refl, refl)
  opened-Alone key r (ok none) st = (_, next st done, refl, refl)
  opened-Alone key r (ok (some set)) st =
      (_, next st (next (puts [] r.holding key set refl) done), refl, refl)

  -- A call that no other step comes between returns what `get_or_load_set` returns, and leaves the
  -- cache that it leaves.
  pub get_or_load_set-Steps :
      (key : Key fst) (r : Threads fst)
      → (s : Threads fst) × Steps fst r s
        × (s.cache ≡ (get_or_load_set fst r.index_dir key.0 key.1 r.cache).1)
        × (s.answers ≡ (key, (get_or_load_set fst r.index_dir key.0 key.1 r.cache).0) ∷ r.answers)
  unfolding get_or_load_set look_up_set
  get_or_load_set-Steps key r =
      let looked : Step fst r (look_up_set fst key (lookup key r.cache) r) = looks_up key in
      elim (Option-cases (lookup key r.cache)) [
        | inl missed ↦
            let looked' = rw missed at looked in
            let (s, steps, c, a) =
              opened-Alone key r (load_set fst r.index_dir key.0 key.1)
                (opens [] r.opening key refl) in
            (
              s,
              next looked' steps,
              (rw (get_or_load_set, missed) c),
              (rw (get_or_load_set, missed) a),
            )
        | inr (set, hit) ↦
            let looked' = rw hit at looked in
            (
              _,
              next looked' done,
              (rw (get_or_load_set, hit) refl),
              (rw (get_or_load_set, hit) refl),
            )
      ]
