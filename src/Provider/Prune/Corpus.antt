-- ===== src/Provider/Prune/Corpus.antt =====
-- What pruning keeps of indexed data files, against a full scan of them.
use pdq.Prelude.{
  ℕ, ◌≡◌, refl, ◌∙◌, Bool, true, false, not, ◌&&◌, ◌||◌, Option, none, some, List, [], ◌∷◌, ◌++◌,
  any, all, any-append, arith, All, is_empty,
}
use pdq.Text.{Str, str_eq, str_eq_refl}
use pdq.Fst.{Fst}
use pdq.IndexDir.{IndexDir}
use pdq.RowSet.{contains}
use pdq.Parquet.{RowGroup, scan_groups}
use pdq.Index.World.{calculate_file_hash}
use pdq.Query.Ranges.{is_exact}
use pdq.Query.Engine.{Engine, FstCache, FileMatches}
use pdq.Query.Engine.Cache.{IsCoherent}
use pdq.Query.Engine.Corpus.{Corpus, scan_corpus, with_match, IsIndexedCorpus, search_all-scan}
use pdq.Provider.Prune.{Expr, extract_equality_filter, prune_with_fst_index}
use pdq.Provider.Prune.Laws.{is_of, allows, is_kept}
use pdq.Provider.Prune.Needs.{found_by, finds, agrees, is_equality, holds_in, any-finds, all-agrees}
use pdq.Provider.Prune.Afresh.{answer, answers, prune_with_fst_index-kept}

pub all-append {ℓ} :
    {A : Type ℓ} (p : A → Bool) (xs ys : List A) → all p (xs ++ ys) ≡ (all p xs && all p ys)
all-append p [] ys = refl
all-append p (x ∷ xs) ys = ground (arith, all-append p xs ys)

module _ (hasher : Str → ℕ) where
  -- None of these files has the hash of the path.
  abbrev pub AllOther : Str → Corpus → Type 0
  AllOther path files =
      All (λ f. str_eq (calculate_file_hash hasher f.0) (calculate_file_hash hasher path) ≡ false)
        files

  any-other :
      (path : Str) (q : Str → Bool) (column : Str) (files : Corpus)
      → AllOther path files
      → any (is_of hasher (calculate_file_hash hasher path)) (scan_corpus q column files) ≡ false
  any-other path q column [] h = refl
  any-other path q column ((p, groups) ∷ files) (h, hs) =
      ground (arith, h, any-other path q column files hs)

  all-other :
      (path : Str) (g : ℕ) (q : Str → Bool) (column : Str) (files : Corpus)
      → AllOther path files
      → all (allows hasher (calculate_file_hash hasher path) g) (scan_corpus q column files) ≡ true
  all-other path g q column [] h = refl
  all-other path g q column ((p, groups) ∷ files) (h, hs) =
      ground (arith, h, all-other path g q column files hs)

  any-match :
      (path : Str) (row_groups : List ℕ) (rest : List FileMatches)
      → any (is_of hasher (calculate_file_hash hasher path)) (with_match path row_groups rest)
        ≡ (not (is_empty row_groups) || any (is_of hasher (calculate_file_hash hasher path)) rest)
  any-match path [] rest = refl
  any-match path (g ∷ gs) rest = rw (str_eq_refl (calculate_file_hash hasher path)) refl

  all-match :
      (path : Str) (g : ℕ) (row_groups : List ℕ) (rest : List FileMatches)
      → all (allows hasher (calculate_file_hash hasher path) g) (with_match path row_groups rest)
        ≡ ((not (not (is_empty row_groups)) || contains g row_groups)
            && all (allows hasher (calculate_file_hash hasher path) g) rest)
  all-match path g [] rest = refl
  all-match path g (r ∷ rs) rest = rw (str_eq_refl (calculate_file_hash hasher path)) refl

  -- One data file among others with other hashes.
  module _ (path : Str) (groups : List RowGroup) (before after : Corpus)
      (other_before : AllOther path before) (other_after : AllOther path after) where
    abbrev files : Corpus
    files = before ++ (path, groups) ∷ after

    scan_corpus-append :
        (q : Str → Bool) (column : Str) (xs ys : Corpus)
        → scan_corpus q column (xs ++ ys) ≡ (scan_corpus q column xs ++ scan_corpus q column ys)
    scan_corpus-append q column [] ys = refl
    scan_corpus-append q column ((p, gs) ∷ xs) ys =
        ground (arith, scan_corpus-append q column xs ys)

    any-scan_corpus :
        (q : Str → Bool) (column : Str)
        → any (is_of hasher (calculate_file_hash hasher path)) (scan_corpus q column files)
          ≡ not (is_empty (scan_groups q column 0 groups))
    any-scan_corpus q column =
        rw
          (
            scan_corpus-append q column before ((path, groups) ∷ after),
            any-append,
            any-other path q column before other_before,
            any-match,
            any-other path q column after other_after,
          )
          (ground arith)

    all-scan_corpus :
        (g : ℕ) (q : Str → Bool) (column : Str)
        → all (allows hasher (calculate_file_hash hasher path) g) (scan_corpus q column files) ≡ (
            not (not (is_empty (scan_groups q column 0 groups)))
            || contains g (scan_groups q column 0 groups))
    all-scan_corpus g q column =
        rw
          (
            scan_corpus-append q column before ((path, groups) ∷ after),
            all-append,
            all-other path g q column before other_before,
            all-match,
            all-other path g q column after other_after,
          )
          (ground arith)

    module _ (fst : Fst) (index_dir : IndexDir fst) (e : Engine) where
      abbrev pub IsIndexedFor : Option (Str × Str) → Type 0
      IsIndexedFor none = Unit
      IsIndexedFor (some (name, value)) = IsIndexedCorpus hasher fst index_dir e name files

      -- The column of every equality filter is indexed.
      abbrev pub AllIndexedFor : List Expr → Type 0
      AllIndexedFor = All (λ f. IsIndexedFor (extract_equality_filter f))

      answer-finds :
          (f : Option (Str × Str))
          → IsIndexedFor f
          → any (is_of hasher (calculate_file_hash hasher path)) (answer hasher fst index_dir e f)
            ≡ not (is_empty (found_by groups f))
      answer-finds none h = refl
      answer-finds (some (name, value)) h =
          rw (search_all-scan hasher fst index_dir e name files h value)
            (any-scan_corpus (is_exact value) name)

      answer-agrees :
          (g : ℕ) (f : Option (Str × Str))
          → IsIndexedFor f
          → all
              (allows hasher (calculate_file_hash hasher path) g)
              (answer hasher fst index_dir e f)
            ≡ (not (not (is_empty (found_by groups f))) || contains g (found_by groups f))
      answer-agrees g none h = refl
      answer-agrees g (some (name, value)) h =
          rw (search_all-scan hasher fst index_dir e name files h value)
            (all-scan_corpus g (is_exact value) name)

      pub answers-finds :
          (fs : List Expr)
          → AllIndexedFor fs
          → any (is_of hasher (calculate_file_hash hasher path)) (answers hasher fst index_dir e fs)
            ≡ any (finds groups) fs
      answers-finds [] h = refl
      answers-finds (f ∷ fs) (h, hs) =
          rw (any-append, answer-finds (extract_equality_filter f) h, answers-finds fs hs) refl

      answers-agrees :
          (g : ℕ) (fs : List Expr)
          → AllIndexedFor fs
          → all
              (allows hasher (calculate_file_hash hasher path) g)
              (answers hasher fst index_dir e fs)
            ≡ all (agrees g groups) fs
      answers-agrees g [] h = refl
      answers-agrees g (f ∷ fs) (h, hs) =
          rw (all-append, answer-agrees g (extract_equality_filter f) h, answers-agrees g fs hs)
            refl

      -- For a file with a hash of its own, in a corpus that is indexed on the column of every
      -- equality filter, and from a coherent cache: pruning keeps a row group of the file exactly
      -- if the scan finds some equality filter in the file, and finds in that row group every
      -- equality filter that it finds in the file at all. The scan finds a filter in a row group if
      -- the column holds there the filter's value or a value that begins with it and a byte 0.
      pub prune_with_fst_index-eq-scan :
          (filters : List Expr) (cache : FstCache fst) (g : ℕ)
          → AllIndexedFor filters
          → IsCoherent fst index_dir cache
          → is_kept g
              (calculate_file_hash hasher path)
              (prune_with_fst_index hasher fst index_dir e filters cache).0
            ≡ (any (finds groups) filters && all (agrees g groups) filters)
      prune_with_fst_index-eq-scan filters cache g indexed c =
          (prune_with_fst_index-kept hasher fst index_dir e filters cache c).0 g
            (calculate_file_hash hasher path)
          ∙ (rw (answers-finds filters indexed, answers-agrees g filters indexed) refl)

      -- For a file with a hash of its own, in a corpus that is indexed on the column of every
      -- equality filter, and from a coherent cache: if some filter is an equality filter, and a
      -- full scan finds the value of every equality filter in a row group, pruning keeps the row
      -- group.
      pub prune_with_fst_index-keeps :
          (filters : List Expr) (cache : FstCache fst) (g : ℕ)
          → AllIndexedFor filters
          → IsCoherent fst index_dir cache
          → any is_equality filters ≡ true
          → all (holds_in g groups) filters ≡ true
          → is_kept g
              (calculate_file_hash hasher path)
              (prune_with_fst_index hasher fst index_dir e filters cache).0
            ≡ true
      prune_with_fst_index-keeps filters cache g indexed c some_equality held =
          prune_with_fst_index-eq-scan filters cache g indexed c
          ∙ (rw (any-finds g groups filters some_equality held, all-agrees g groups filters held)
              refl)
