-- ===== src/Provider/Prune/Paths.antt =====
-- The path that pruning records for a file of the corpus.
use pdq.Prelude.{
  ◌≡◌, ◌⊎◌, inl, inr, refl, Bool, true, false, not, ◌||◌, ℕ, Option, none, some, List, [], ◌∷◌,
  ◌++◌, any, all, All, All-append, arith, if◌then◌else◌,
}
use pdq.Text.{Str, str_eq, str_eq_iff, str_eq_refl}
use pdq.Assoc.{lookup, lookup-insert, str_key}
use pdq.Fst.{Fst}
use pdq.IndexDir.{IndexDir}
use pdq.Parquet.{RowGroup, scan_groups}
use pdq.Index.World.{calculate_file_hash}
use pdq.Query.Ranges.{is_exact}
use pdq.Query.Engine.{Engine, FstCache, FileMatches}
use pdq.Query.Engine.Cache.{IsCoherent}
use pdq.Query.Engine.Corpus.{Corpus, scan_corpus, with_match, search_all-scan}
use pdq.Provider.Prune.{
  Expr, Pruned, extract_equality_filter, add_match, add_matches, prune_with_fst_index,
}
use pdq.Provider.Prune.Laws.{is_of}
use pdq.Provider.Prune.Needs.{finds}
use pdq.Provider.Prune.Afresh.{answer, answers, no_groups, hash_to_path-eq}
use pdq.Provider.Prune.Corpus.{AllOther, IsIndexedFor, AllIndexedFor, answers-finds, all-append}

module _ (hasher : Str → ℕ) (path : Str) where
  abbrev file_hash : Str
  file_hash = calculate_file_hash hasher path

  -- The match, if it has the hash of the path, has the path.
  abbrev names : FileMatches → Bool
  names m = not (is_of hasher file_hash m) || str_eq m.file_path path

  hash_to_path-add_match :
      (m : FileMatches) (p : Pruned)
      → names m ≡ true
      → lookup file_hash (add_match hasher m p).hash_to_path
        ≡ (if is_of hasher file_hash m then some path else lookup file_hash p.hash_to_path)
  unfolding add_match
  hash_to_path-add_match m p h = ground (
    arith,
    lookup-insert (calculate_file_hash hasher m.file_path) file_hash m.file_path p.hash_to_path,
    str_eq_iff m.file_path path,
  )

  hash_to_path-add_matches :
      (ms : List FileMatches) (p : Pruned)
      → all names ms ≡ true
      → lookup file_hash (add_matches hasher ms p).hash_to_path
        ≡ (if any (is_of hasher file_hash) ms then some path else lookup file_hash p.hash_to_path)
  unfolding add_matches
  hash_to_path-add_matches [] p h = refl
  hash_to_path-add_matches (m ∷ ms) p h =
      ground (arith, hash_to_path-add_match m p, hash_to_path-add_matches ms (add_match hasher m p))

  -- The file is this one or has another hash.
  abbrev Named : Str × List RowGroup → Type 0
  Named f = (f.0 ≡ path) ⊎ (str_eq (calculate_file_hash hasher f.0) file_hash ≡ false)

  names-with_match :
      (p : Str) (row_groups : List ℕ) (rest : List FileMatches)
      → (p ≡ path) ⊎ (str_eq (calculate_file_hash hasher p) file_hash ≡ false)
      → all names rest ≡ true
      → all names (with_match p row_groups rest) ≡ true
  names-with_match p [] rest n h = h
  names-with_match p (g ∷ gs) rest (inl e) h = rw (e, str_eq_refl path, str_eq_refl file_hash) h
  names-with_match p (g ∷ gs) rest (inr ne) h = rw ne h

  names-scan_corpus :
      (q : Str → Bool) (column : Str) (files : Corpus)
      → All Named files
      → all names (scan_corpus q column files) ≡ true
  names-scan_corpus q column [] h = refl
  names-scan_corpus q column ((p, groups) ∷ files) (n, h) =
      names-with_match p (scan_groups q column 0 groups) (scan_corpus q column files) n
        (names-scan_corpus q column files h)

  others-Named : (files : Corpus) → AllOther hasher path files → All Named files
  others-Named [] h = tt
  others-Named (f ∷ files) (h, hs) = (inr h, others-Named files hs)

  module _ (groups : List RowGroup) (before after : Corpus)
      (other_before : AllOther hasher path before) (other_after : AllOther hasher path after)
      (fst : Fst) (index_dir : IndexDir fst) (e : Engine) where
    corpus-Named : All Named (before ++ (path, groups) ∷ after)
    corpus-Named =
        All-append Named before ((path, groups) ∷ after) (others-Named before other_before)
          (inl refl, others-Named after other_after)

    names-answer :
        (f : Option (Str × Str))
        → IsIndexedFor hasher path groups before after other_before other_after fst index_dir e f
        → all names (answer hasher fst index_dir e f) ≡ true
    names-answer none h = refl
    names-answer (some (name, value)) h =
        rw (search_all-scan hasher fst index_dir e name (before ++ (path, groups) ∷ after) h value)
          (names-scan_corpus (is_exact value) name (before ++ (path, groups) ∷ after) corpus-Named)

    names-answers :
        (fs : List Expr)
        → AllIndexedFor hasher path groups before after other_before other_after fst index_dir e fs
        → all names (answers hasher fst index_dir e fs) ≡ true
    names-answers [] h = refl
    names-answers (f ∷ fs) (h, hs) =
        rw (all-append, names-answer (extract_equality_filter f) h, names-answers fs hs) refl

    -- In the setting of pruning against a full scan: if the full scan finds the value of some
    -- equality filter in the file, the path of the file is recorded for its hash.
    pub hash_to_path-known :
        (filters : List Expr) (cache : FstCache fst)
        → AllIndexedFor hasher path groups before after other_before other_after fst index_dir e
            filters
        → IsCoherent fst index_dir cache
        → any (finds groups) filters ≡ true
        → lookup
            (calculate_file_hash hasher path)
            (prune_with_fst_index hasher fst index_dir e filters cache).0.hash_to_path
          ≡ some path
    hash_to_path-known filters cache indexed c found =
        rw
          (
            hash_to_path-eq hasher fst index_dir e filters cache c,
            hash_to_path-add_matches (answers hasher fst index_dir e filters) no_groups
                (names-answers filters indexed),
            answers-finds hasher path groups before after other_before other_after fst index_dir e
                filters indexed,
            found,
          )
          refl
