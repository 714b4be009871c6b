-- ===== src/Cli/Search.antt =====
-- What the search subcommand reports of an exact search.
use pdq.Prelude.{
  ℕ, ◌≡◌, refl, List, [], ◌∷◌, ◌++◌, ◌%◌, arith, length, length-append, is_empty, if◌then◌else◌,
}
use pdq.Prelude.Result.{ok}
use pdq.Text.{Str}
use pdq.Text.Decimal.{word}
use pdq.Fst.{Fst}
use pdq.IndexDir.{IndexDir}
use pdq.Query.Ranges.{is_exact}
use pdq.Query.Engine.{Engine, FileMatches}
use pdq.Query.Engine.Cache.{Returns, Returns-bind, Returns-pure}
use pdq.Query.Engine.Corpus.{Corpus, scan_corpus, IsIndexedCorpus, exact_search-eq-scan}
use pdq.Cli.{exact_type, no_results, found, total_row_groups, report, run_search}

-- The row groups of all matches.
abbrev pub all_row_groups : List FileMatches → List ℕ
all_row_groups [] = []
all_row_groups (m ∷ ms) = m.row_groups ++ all_row_groups ms

total_row_groups-length :
    (ms : List FileMatches) → total_row_groups ms ≡ length (all_row_groups ms) % word
unfolding total_row_groups
total_row_groups-length [] = refl
total_row_groups-length (m ∷ ms) =
    rw (total_row_groups-length ms, length-append m.row_groups (all_row_groups ms)) (omega arith)

report-eq :
    (ms : List FileMatches)
    → report ms ≡ (
        if is_empty ms
        then no_results
        else found (length (all_row_groups ms) % word) (length ms) ms)
unfolding report
report-eq ms = rw (report, total_row_groups-length ms) refl

-- For an engine that knows exactly these files, over an index of them, and from a coherent cache: the
-- exact search of the command reports that there is nothing if a full scan of the column finds, in no
-- file, the term or a value that begins with the term and a byte 0; and else the number, modulo 2 ^ 64,
-- of row groups in which it finds such a value, then the number of files, then for each of these files the row
-- groups. The cache is left coherent.
pub run_search-exact :
    (hasher : Str → ℕ) (fst : Fst) (index_dir : IndexDir fst) (e : Engine) (column : Str)
    (files : Corpus) (x : IsIndexedCorpus hasher fst index_dir e column files) (term : Str)
    → Returns fst index_dir (run_search fst index_dir e exact_type column term) (
        ok (
          if is_empty (scan_corpus (is_exact term) column files)
          then no_results
          else found
              (length (all_row_groups (scan_corpus (is_exact term) column files)) % word)
              (length (scan_corpus (is_exact term) column files))
              (scan_corpus (is_exact term) column files)))
unfolding run_search
run_search-exact hasher fst index_dir e column files x term =
    let done =
      Returns-bind fst index_dir _ _ _ (λ matches. ok (report matches))
        (exact_search-eq-scan hasher fst index_dir e column files x term)
        (λ matches. Returns-pure fst index_dir (report matches)) in
    rw (report-eq (scan_corpus (is_exact term) column files)) at done
