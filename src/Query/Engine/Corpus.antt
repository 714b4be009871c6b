-- ===== src/Query/Engine/Corpus.antt =====
-- The searches over all indexed files against a full scan of the data.
use pdq.Prelude.{
  ℕ, ◌+◌, ◌%◌, ◌≡◌, refl, sym, ap, ◌∙◌, Bool, not, Option, some, List, [], ◌∷◌, map, arith, All,
  length, is_empty, if◌then◌else◌,
}
use pdq.Prelude.{All-intro}
use pdq.Prelude.Result.{Result, ok}
use pdq.Text.{Str}
use pdq.Text.Decimal.{word}
use pdq.Assoc.{lookup, str_key}
use pdq.Fst.{Fst}
use pdq.IndexDir.{IndexDir}
use pdq.Parquet.{RowGroup, scan_groups}
use pdq.Index.World.{calculate_file_hash}
use pdq.Query.Search.{search_set}
use pdq.Query.Ranges.{is_exact}
use pdq.Query.FullScan.{IsIndexOf, search_set-eq-scan, set_has_term-eq-scan}
use pdq.Query.Engine.Totals.{total, total-zero, total-add, total-ext}
use pdq.Query.Engine.{
  Engine, FileMatches, load_set, search_file, keep_matches, to_matches, exact_search, count_terms,
  count_files, exact_search_multi,
}
use pdq.Query.Engine.Cache.{
  Returns, search_files_afresh, search_all_afresh, search_all-Returns, get_or_load_set-Returns,
  Returns-bind, Returns-pure,
}

-- The data files, each by its path and its row groups.
abbrev pub Corpus : Type 0
Corpus = List (Str × List RowGroup)

abbrev pub with_match : Str → List ℕ → List FileMatches → List FileMatches
with_match path row_groups rest =
    if is_empty row_groups
    then rest
    else record { file_path = path; row_groups = row_groups } ∷ rest

-- A full scan: each file in which some value of the column passes the test, with its row groups.
abbrev pub scan_corpus : (Str → Bool) → Str → Corpus → List FileMatches
scan_corpus q column [] = []
scan_corpus q column ((path, groups) ∷ files) =
    with_match path (scan_groups q column 0 groups) (scan_corpus q column files)

module _ (hasher : Str → ℕ) (fst : Fst) (index_dir : IndexDir fst) (e : Engine) (column : Str) where
  abbrev hash_of : Str → Str
  hash_of path = calculate_file_hash hasher path

  abbrev pub entry : Str × List RowGroup → Str × Str
  entry (path, groups) = (calculate_file_hash hasher path, path)

  -- The engine knows the file by the hash of its path, and the index directory has an index of it.
  pub record IsIndexed (file : Str × List RowGroup) : Type 0 where
    pub named : lookup (calculate_file_hash hasher file.0) e.file_map ≡ some file.0
    pub set : fst.Keys
    pub loaded : load_set fst index_dir (calculate_file_hash hasher file.0) column ≡ ok (some set)
    pub index_of : IsIndexOf fst set column file.1

  -- The engine knows exactly these files, and each is indexed.
  pub record IsIndexedCorpus (files : Corpus) : Type 0 where
    pub known : e.file_map ≡ map entry files
    pub indexed : All IsIndexed files

  -- On any index of the file, the search within one FST returns what a full scan finds.
  abbrev pub Answers : (fst.Keys → Result (List ℕ)) → (Str → Bool) → Str × List RowGroup → Type 0
  Answers search q file =
      (set : fst.Keys)
      → IsIndexOf fst set column file.1
      → search set ≡ ok (scan_groups q column 0 file.1)

  search_file-some :
      (search : fst.Keys → Result (List ℕ)) (q : Str → Bool) (path : Str) (groups : List RowGroup)
      (set : fst.Keys)
      → Answers search q (path, groups)
      → IsIndexOf fst set column groups
      → search_file fst search (hash_of path) (some set)
        ≡ ok (keep_matches fst (hash_of path) (scan_groups q column 0 groups))
  unfolding search_file
  search_file-some search q path groups set a ix = rw (search_file, a set ix) refl

  to_matches-keep :
      (path : Str) (row_groups : List ℕ) (rest : List (Option (Str × List ℕ)))
      → lookup (hash_of path) e.file_map ≡ some path
      → to_matches fst e.file_map (keep_matches fst (hash_of path) row_groups ∷ rest)
        ≡ with_match path row_groups (to_matches fst e.file_map rest)
  unfolding to_matches keep_matches
  to_matches-keep path [] rest named = refl
  to_matches-keep path (g ∷ gs) rest named = rw (to_matches, named) refl

  search_files-scan :
      (search : fst.Keys → Result (List ℕ)) (q : Str → Bool) (files : Corpus)
      → All IsIndexed files
      → All (Answers search q) files
      → (rs : List (Option (Str × List ℕ))) × (search_files_afresh fst index_dir column search
            (map entry files)
          ≡ ok rs)
        × (to_matches fst e.file_map rs ≡ scan_corpus q column files)
  unfolding to_matches
  search_files-scan search q [] h a = ([], refl, refl)
  search_files-scan search q ((path, groups) ∷ files) (i, h) (a, as') =
      let (rs, done, same) = search_files-scan search q files h as' in
      let row_groups = scan_groups q column 0 groups in
      (
        keep_matches fst (hash_of path) row_groups ∷ rs,
        (rw (i.loaded, search_file-some search q path groups i.set a i.index_of, done) refl),
        to_matches-keep path row_groups rs i.named ∙ ap (with_match path row_groups) same,
      )

  abbrev hit : Bool → ℕ
  hit b = if b then 1 else 0

  hits_in : List RowGroup → Str → ℕ
  hits_in groups term = hit (not (is_empty (scan_groups (is_exact term) column 0 groups)))

  count_terms-total :
      (set : fst.Keys) (groups : List RowGroup) (terms : List Str)
      → IsIndexOf fst set column groups
      → count_terms fst (some set) terms ≡ total (hits_in groups) terms
  unfolding count_terms hits_in
  count_terms-total set groups [] ix = refl
  count_terms-total set groups (term ∷ terms) ix =
      rw (set_has_term-eq-scan fst set column groups ix term)
        (ap (◌+◌ _) (count_terms-total set groups terms ix))

  length-with_match :
      (path : Str) (row_groups : List ℕ) (rest : List FileMatches)
      → length (with_match path row_groups rest) ≡ hit (not (is_empty row_groups)) + length rest
  length-with_match path [] rest = omega arith
  length-with_match path (g ∷ gs) rest = omega arith

  count_scans : List Str → Corpus → ℕ
  count_scans terms [] = 0
  count_scans terms ((path, groups) ∷ files) =
      total (hits_in groups) terms + count_scans terms files

  count_scans-total :
      (terms : List Str) (files : Corpus)
      → count_scans terms files
        ≡ total (λ term. length (scan_corpus (is_exact term) column files)) terms
  unfolding count_scans hits_in
  count_scans-total terms [] = sym (total-zero terms)
  count_scans-total terms ((path, groups) ∷ files) =
      ap (◌+◌ _) (count_scans-total terms files)
      ∙ sym (total-add (hits_in groups) (λ t. length (scan_corpus (is_exact t) column files)) terms)
      ∙ total-ext (λ t. hits_in groups t + length (scan_corpus (is_exact t) column files))
          (λ t. length (scan_corpus (is_exact t) column ((path, groups) ∷ files)))
          (λ t. sym (
            length-with_match path (scan_groups (is_exact t) column 0 groups)
              (scan_corpus (is_exact t) column files)))
          terms

  add_wrapped : (a b : ℕ) → (a + b) % word ≡ (a + b % word) % word
  add_wrapped a b = omega arith

  count_files-scan :
      (terms : List Str) (files : Corpus)
      → All IsIndexed files
      → Returns fst index_dir
          (count_files fst index_dir column terms (map entry files))
          (ok (count_scans terms files % word))
  unfolding count_files count_scans
  count_files-scan terms [] h = Returns-pure fst index_dir 0
  count_files-scan terms ((path, groups) ∷ files) (i, h) =
      let rest = count_files-scan terms files h in
      let here = get_or_load_set-Returns fst index_dir (hash_of path) column in
      let all =
        Returns-bind fst index_dir _ _ _
          (λ set. ok ((count_terms fst set terms + count_scans terms files % word) % word)) here
          (λ set.
            Returns-bind fst index_dir _ _ _ (λ n. ok ((count_terms fst set terms + n) % word)) rest
              (λ n. Returns-pure fst index_dir ((count_terms fst set terms + n) % word))) in
      rw (add_wrapped (total (hits_in groups) terms) (count_scans terms files))
        (rw (i.loaded, count_terms-total i.set groups terms i.index_of) at all)

  module _ (files : Corpus) (x : IsIndexedCorpus files) where
    -- Whatever the search, where it answers for each of the files.
    pub search_all-Answers :
        (search : fst.Keys → Result (List ℕ)) (q : Str → Bool)
        → All (Answers search q) files
        → search_all_afresh fst index_dir e column search ≡ ok (scan_corpus q column files)
    search_all-Answers search q answers =
        let (rs, done, same) = search_files-scan search q files x.indexed answers in
        let same' = rw x.known at same in rw (x.known, done) (ap ok same')

    pub search_all-scan :
        (term : Str)
        → search_all_afresh fst index_dir e column (λ s. search_set fst s term)
          ≡ ok (scan_corpus (is_exact term) column files)
    search_all-scan term =
        search_all-Answers (λ s. search_set fst s term) (is_exact term)
          (All-intro (Answers (λ s. search_set fst s term) (is_exact term)) files
            (λ f set ix. search_set-eq-scan fst set column f.1 ix term))

    -- For an engine that knows exactly these files, over an index directory in which each of them
    -- is indexed on the column, and from a coherent cache: an exact search returns, without an
    -- error, the files and row groups in which a full scan of the column finds the term or a value
    -- that begins with the term and a byte 0, and leaves the cache coherent.
    pub exact_search-eq-scan :
        (term : Str)
        → Returns fst index_dir
            (exact_search fst index_dir e column term)
            (ok (scan_corpus (is_exact term) column files))
    unfolding exact_search
    exact_search-eq-scan term =
        rw (← search_all-scan term)
          (search_all-Returns fst index_dir e column (λ s. search_set fst s term))

    -- For an engine that knows exactly these files, over an index directory in which each of them
    -- is indexed on the column, and from a coherent cache: the batch search returns, without an
    -- error, the sum modulo 2 ^ 64, over the terms, of the number of files in which a full scan of
    -- the column finds the term or a value that begins with the term and a byte 0.
    pub exact_search_multi-eq-scan :
        (terms : List Str)
        → Returns fst index_dir
            (exact_search_multi fst index_dir e column terms)
            (ok (total (λ term. length (scan_corpus (is_exact term) column files)) terms % word))
    unfolding exact_search_multi
    exact_search_multi-eq-scan terms =
        rw (x.known, ← count_scans-total terms files) (count_files-scan terms files x.indexed)
