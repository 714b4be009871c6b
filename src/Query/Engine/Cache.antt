-- ===== src/Query/Engine/Cache.antt =====
-- The cache of opened FSTs changes nothing of what the engine returns.
use pdq.Prelude.{
  ℕ, ◌≡◌, refl, sym, ap, ◌∙◌, Option, none, some, List, [], ◌∷◌, Option-cases, inl, inr, Bool-cases,
}
use pdq.Prelude.Result.{Result, ok, err, ◌>>=◌}
use pdq.Prelude.Exec
use pdq.Prelude.Exec.{Exec, pure, lift}
use pdq.Text.{Str}
use pdq.Assoc.{lookup, insert, lookup-insert, str_key, pair_key}
use pdq.Fst.{Fst}
use pdq.IndexDir.{IndexDir}
use pdq.Query.Engine.{
  Engine, FstCache, FileMatches, load_set, publish, or_insert, get_or_load_set, search_file,
  search_files, to_matches, search_all,
}

module _ (fst : Fst) (index_dir : IndexDir fst) where
  -- What the cache holds is what the index directory holds.
  pub record IsCoherent (cache : FstCache fst) : Type 0 where
    pub resident :
        (file_hash column : Str) (set : fst.Keys)
        → lookup (file_hash, column) cache ≡ some set
        → load_set fst index_dir file_hash column ≡ ok (some set)

  -- An action of the engine that, from any coherent cache, returns `r` and leaves the cache coherent.
  pub record Returns {A : Type 0} (m : Exec (FstCache fst) A) (r : Result A) : Type 0 where
    pub result : (cache : FstCache fst) → IsCoherent cache → (m cache).0 ≡ r
    pub keeps : (cache : FstCache fst) → IsCoherent cache → IsCoherent (m cache).1

  pub Returns-lift : {A : Type 0} (r : Result A) → Returns (lift r) r
  Returns-lift r = record { result = λ cache h. refl; keeps = λ cache h. h }

  pub Returns-pure : {A : Type 0} (a : A) → Returns (pure a) (ok a)
  Returns-pure a = Returns-lift (ok a)

  continue-result :
      {A B : Type 0} (x : Result A) (f : A → Exec (FstCache fst) B) (g : A → Result B)
      → ((a : A) → Returns (f a) (g a))
      → (cache : FstCache fst) → IsCoherent cache
      → ((Exec.◌>>=◌ (lift x) f) cache).0 ≡ (x >>= g)
  continue-result (ok a) f g h cache c = (h a).result cache c
  continue-result (err e) f g h cache c = refl

  continue-keeps :
      {A B : Type 0} (x : Result A) (f : A → Exec (FstCache fst) B) (g : A → Result B)
      → ((a : A) → Returns (f a) (g a))
      → (cache : FstCache fst) → IsCoherent cache
      → IsCoherent ((Exec.◌>>=◌ (lift x) f) cache).1
  continue-keeps (ok a) f g h cache c = (h a).keeps cache c
  continue-keeps (err e) f g h cache c = c

  pub Returns-bind :
      {A B : Type 0} (m : Exec (FstCache fst) A) (f : A → Exec (FstCache fst) B) (r : Result A)
      (g : A → Result B)
      → Returns m r
      → ((a : A) → Returns (f a) (g a))
      → Returns (Exec.◌>>=◌ m f) (r >>= g)
  Returns-bind m f r g hm hf = record {
    result = λ cache c.
        continue-result (m cache).0 f g hf (m cache).1 (hm.keeps cache c)
        ∙ ap (λ x. x >>= g) (hm.result cache c);
    keeps = λ cache c. continue-keeps (m cache).0 f g hf (m cache).1 (hm.keeps cache c);
  }

  IsCoherent-insert :
      (file_hash column : Str) (set : fst.Keys) (cache : FstCache fst)
      → load_set fst index_dir file_hash column ≡ ok (some set)
      → IsCoherent cache
      → IsCoherent (insert (file_hash, column) set cache)
  IsCoherent-insert file_hash column set cache loaded c = record {
    resident = λ h k s e.
        let e' = rw lookup-insert at e in
        elim (Bool-cases (pair_key.beq (file_hash, column) (h, k))) [
          | inl same ↦
              let p : ◌≡◌ {A = Str × Str} (file_hash, column) (h, k) =
                (pair_key.beq_iff (file_hash, column) (h, k)).0 same in
              let q : some set ≡ some s = (rw same at e') in
              ap (λ (x : Str × Str). load_set fst index_dir x.0 x.1) (sym p) ∙ loaded ∙ ap ok q
          | inr other ↦ c.resident h k s (rw other at e')
        ];
  }

  publish-Returns :
      (file_hash column : Str) (cache : FstCache fst) (r : Result (Option fst.Keys))
      → lookup (file_hash, column) cache ≡ none
      → load_set fst index_dir file_hash column ≡ r
      → IsCoherent cache
      → ((publish fst (file_hash, column) r cache).0 ≡ r)
        × IsCoherent (publish fst (file_hash, column) r cache).1
  unfolding publish or_insert
  publish-Returns file_hash column cache (err e) fresh loaded c = (refl, c)
  publish-Returns file_hash column cache (ok none) fresh loaded c = (refl, c)
  publish-Returns file_hash column cache (ok (some set)) fresh loaded c =
      rw (publish, or_insert, fresh) (refl, IsCoherent-insert file_hash column set cache loaded c)

  get_or_load_set-at :
      (file_hash column : Str) (cache : FstCache fst)
      → IsCoherent cache
      → ((get_or_load_set fst index_dir file_hash column cache).0
          ≡ load_set fst index_dir file_hash column)
        × IsCoherent (get_or_load_set fst index_dir file_hash column cache).1
  unfolding get_or_load_set
  get_or_load_set-at file_hash column cache c =
      elim (Option-cases (lookup (file_hash, column) cache)) [
        | inl fresh ↦
            rw (get_or_load_set, fresh)
              (publish-Returns file_hash column cache (load_set fst index_dir file_hash column)
                fresh refl c)
        | inr (set, e) ↦ rw (get_or_load_set, e) (sym (c.resident file_hash column set e), c)
      ]

  -- From a coherent cache, `get_or_load_set` returns what opening the file would return, errors
  -- included, and leaves the cache coherent.
  pub get_or_load_set-Returns :
      (file_hash column : Str)
      → Returns
          (get_or_load_set fst index_dir file_hash column)
          (load_set fst index_dir file_hash column)
  get_or_load_set-Returns file_hash column = record {
    result = λ cache c. (get_or_load_set-at file_hash column cache c).0;
    keeps = λ cache c. (get_or_load_set-at file_hash column cache c).1;
  }

  -- The search of every file without a cache: each FST is opened anew.
  abbrev pub search_files_afresh :
      Str → (fst.Keys → Result (List ℕ)) → List (Str × Str) → Result (List (Option (Str × List ℕ)))
  search_files_afresh column search [] = ok []
  search_files_afresh column search ((file_hash, _) ∷ files) = do
    set ← load_set fst index_dir file_hash column
    r ← search_file fst search file_hash set
    rest ← search_files_afresh column search files
    ok (r ∷ rest)

  abbrev pub search_all_afresh :
      Engine → Str → (fst.Keys → Result (List ℕ)) → Result (List FileMatches)
  search_all_afresh e column search = do
    results ← search_files_afresh column search e.file_map
    ok (to_matches fst e.file_map results)

  search_files-Returns :
      (column : Str) (search : fst.Keys → Result (List ℕ)) (files : List (Str × Str))
      → Returns
          (search_files fst index_dir column search files)
          (search_files_afresh column search files)
  unfolding search_files
  search_files-Returns column search [] = Returns-pure []
  search_files-Returns column search ((file_hash, path) ∷ files) =
      let rest = search_files-Returns column search files in
      Returns-bind _ _ _ _ (get_or_load_set-Returns file_hash column) λ set.
        Returns-bind _ _ _ _ (Returns-lift (search_file fst search file_hash set))
          λ r. Returns-bind _ _ _ _ rest λ rs. Returns-pure (r ∷ rs)

  -- From any coherent cache, whatever the search within a file, `search_all` returns what it
  -- would return if each FST were opened anew, errors included, and it leaves the cache coherent.
  pub search_all-Returns :
      (e : Engine) (column : Str) (search : fst.Keys → Result (List ℕ))
      → Returns (search_all fst index_dir e column search) (search_all_afresh e column search)
  unfolding search_all
  search_all-Returns e column search =
      Returns-bind _ _ _ _ (search_files-Returns column search e.file_map)
        λ rs. Returns-pure (to_matches fst e.file_map rs)

  -- The empty cache that `new` starts with is coherent.
  pub IsCoherent-empty : IsCoherent []
  unfolding lookup
  IsCoherent-empty = record { resident = λ h k s e. cc }
