-- ===== src/Query/Engine/Races.antt =====
-- Threads that load FSTs through one cache at the same time, while the index may be written anew: the
-- cache is locked for the look-up and for the insertion, and not for the opening of the file between.
pub mod Agreement
use pdq.Prelude.{
  ℕ, ◌≡◌, refl, sym, ap, ◌∙◌, Option, none, some, List, [], ◌∷◌, ◌++◌, All, Option-cases,
  Bool-cases, inl, inr, true, false, arith,
}
use pdq.Prelude.Result.{Result, ok, err}
use pdq.Text.{Str}
use pdq.Assoc.{lookup, insert, lookup-insert, lookup-insert_self, pair_key}
use pdq.Fst.{Fst}
use pdq.IndexDir.{IndexDir}
use pdq.Query.Engine.{FstCache, load_set, or_insert, publish, get_or_load_set}

module _ (fst : Fst) where
  abbrev pub Key : Type 0
  Key = Str × Str

  -- What a thread's call returned.
  abbrev pub Answer : Type 0
  Answer = Key × Result (Option fst.Keys)

  -- The index directory and the cache, the keys that threads missed in the cache, the sets that they
  -- have opened but not yet put there, and the calls that have returned.
  pub record Threads : Type 0 where
    pub index_dir : IndexDir fst
    pub cache : FstCache fst
    pub opening : List Key
    pub holding : List (Key × fst.Keys)
    pub answers : List Answer

  -- Under the read lock.
  unfoldable pub look_up_set : Key → Option fst.Keys → Threads → Threads
  look_up_set key (some set) r = record r { answers = (key, ok (some set)) ∷ r.answers }
  look_up_set key none r = record r { opening = key ∷ r.opening }

  -- Without a lock: `File::open`, `Mmap::map`, `Set::new`.
  unfoldable pub opened_set : Key → List Key → Result (Option fst.Keys) → Threads → Threads
  opened_set key others (err e) r = record r {
    opening = others;
    answers = (key, err e) ∷ r.answers;
  }
  opened_set key others (ok none) r = record r {
    opening = others;
    answers = (key, ok none) ∷ r.answers;
  }
  opened_set key others (ok (some set)) r = record r {
    opening = others;
    holding = (key, set) ∷ r.holding;
  }

  -- Under the write lock.
  unfoldable pub put_set : Key → fst.Keys → List (Key × fst.Keys) → Threads → Threads
  unfolding or_insert
  put_set key set others r =
      let (resident, cache') = or_insert fst key set r.cache in
      record r { cache = cache'; holding = others; answers = (key, ok (some resident)) ∷ r.answers }

  pub data Step : Threads → Threads → Type 0 where
    looks_up : {r : Threads} (key : Key) → Step r (look_up_set key (lookup key r.cache) r)
    opens :
        {r : Threads} (before after : List Key) (key : Key)
        → r.opening ≡ before ++ key ∷ after
        → Step r (opened_set key (before ++ after) (load_set fst r.index_dir key.0 key.1) r)
    puts :
        {r : Threads} (before after : List (Key × fst.Keys)) (key : Key) (set : fst.Keys)
        → r.holding ≡ before ++ (key, set) ∷ after
        → Step r (put_set key set (before ++ after) r)
    -- another process writes the index
    writes : {r : Threads} (index_dir : IndexDir fst) → Step r (record r { index_dir = index_dir })

  pub data Steps : Threads → Threads → Type 0 where
    done : {r : Threads} → Steps r r
    next : {r s t : Threads} → Step r s → Steps s t → Steps r t

  abbrev pub start : IndexDir fst → Threads
  start index_dir = record {
    index_dir = index_dir;
    cache = [];
    opening = [];
    holding = [];
    answers = [];
  }

  -- If the call returned a set, that set is the resident one.
  abbrev pub IsResident : FstCache fst → Answer → Type 0
  IsResident cache (key, result) =
      (set : fst.Keys) → result ≡ ok (some set) → lookup key cache ≡ some set

  -- What is resident in the first cache is resident in the second.
  abbrev pub Keeps : FstCache fst → FstCache fst → Type 0
  Keeps cache cache' =
      (key : Key) (set : fst.Keys) → lookup key cache ≡ some set → lookup key cache' ≡ some set

  or_insert-Keeps :
      (key : Key) (set : fst.Keys) (cache : FstCache fst)
      → Keeps cache (or_insert fst key set cache).1
  unfolding or_insert
  or_insert-Keeps key set cache k s e = elim (Option-cases (lookup key cache)) [
    | inl fresh ↦ elim (Bool-cases (pair_key.beq key k)) [
      | inl same ↦
          let p : key ≡ k = (pair_key.beq_iff key k).0 same in
          let q : some s ≡ none = (sym e ∙ ap (λ x. lookup x cache) (sym p) ∙ fresh) in absurd (cc)
      | inr other ↦ rw (or_insert, fresh, lookup-insert, other) e
    ]
    | inr (t, old) ↦ rw (or_insert, old) e
  ]

  or_insert-resident :
      (key : Key) (set : fst.Keys) (cache : FstCache fst)
      → lookup key (or_insert fst key set cache).1 ≡ some (or_insert fst key set cache).0
  unfolding or_insert
  or_insert-resident key set cache = elim (Option-cases (lookup key cache)) [
    | inl fresh ↦ rw (or_insert, fresh) (lookup-insert_self key set cache)
    | inr (t, old) ↦ rw (or_insert, old) old
  ]

  All-Keeps :
      (cache cache' : FstCache fst) (answers : List Answer)
      → Keeps cache cache'
      → All (IsResident cache) answers
      → All (IsResident cache') answers
  All-Keeps cache cache' [] k h = tt
  All-Keeps cache cache' ((key, result) ∷ answers) k (h, hs) =
      (λ set e. k key set (h set e), All-Keeps cache cache' answers k hs)

  -- What every step keeps: the answers are resident, and what was resident is.
  pub record Agrees (r s : Threads) : Type 0 where
    pub resident : All (IsResident s.cache) s.answers
    pub kept : Keeps r.cache s.cache

  look_up_set-Agrees :
      (key : Key) (o : Option fst.Keys) (r : Threads)
      → lookup key r.cache ≡ o
      → All (IsResident r.cache) r.answers
      → Agrees r (look_up_set key o r)
  unfolding look_up_set
  look_up_set-Agrees key none r e h = record { resident = h; kept = λ k s f. f }
  look_up_set-Agrees key (some set) r e h = record {
    resident = (λ s f. (let f' = f in e ∙ (let q : set ≡ s = (cc) in ap some q)), h);
    kept = λ k s f. f;
  }

  opened_set-Agrees :
      (key : Key) (others : List Key) (l : Result (Option fst.Keys)) (r : Threads)
      → All (IsResident r.cache) r.answers
      → Agrees r (opened_set key others l r)
  unfolding opened_set
  opened_set-Agrees key others (err x) r h = record {
    resident = (λ s f. (let f' = f in absurd (cc)), h);
    kept = λ k s f. f;
  }
  opened_set-Agrees key others (ok none) r h = record {
    resident = (λ s f. (let f' = f in absurd (cc)), h);
    kept = λ k s f. f;
  }
  opened_set-Agrees key others (ok (some set)) r h = record { resident = h; kept = λ k s f. f }

  put_set-Agrees :
      (key : Key) (set : fst.Keys) (others : List (Key × fst.Keys)) (r : Threads)
      → All (IsResident r.cache) r.answers
      → Agrees r (put_set key set others r)
  unfolding put_set
  put_set-Agrees key set others r h = record {
    resident = (
      λ s f.
          let q : (or_insert fst key set r.cache).0 ≡ s = (let f' = f in cc) in
          or_insert-resident key set r.cache ∙ ap some q,
      All-Keeps r.cache (or_insert fst key set r.cache).1 r.answers
          (or_insert-Keeps key set r.cache) h,
    );
    kept = or_insert-Keeps key set r.cache;
  }

  pub Step-Agrees : {r s : Threads} → Step r s → All (IsResident r.cache) r.answers → Agrees r s
  Step-Agrees {r} (looks_up key) h = look_up_set-Agrees key (lookup key r.cache) r refl h
  Step-Agrees {r} (opens before after key e) h =
      opened_set-Agrees key (before ++ after) (load_set fst r.index_dir key.0 key.1) r h
  Step-Agrees {r} (puts before after key set e) h = put_set-Agrees key set (before ++ after) r h
  Step-Agrees {r} (writes index_dir) h = record { resident = h; kept = λ k s f. f }
