-- ===== src/Cli/ZeroMatch.antt =====
-- When the query subcommand ends without a query.
use pdq.Prelude.{◌≡◌, refl, ap, Bool, true, false, Option, List, [], ◌∷◌, is_empty, if◌then◌else◌}
use pdq.Prelude.Result.{Result, ok, err}
use pdq.Prelude.Exec.{Exec, lift, and_then, ◌>>=◌}
use pdq.Text.{Str}
use pdq.Query.Ranges.{is_exact}
use pdq.Query.Engine.{FileMatches, new}
use pdq.Query.Engine.Cache.{IsCoherent-empty}
use pdq.Query.Engine.Corpus.{Corpus, scan_corpus, IsIndexedCorpus, exact_search-eq-scan}
use pdq.Provider.Builder.{build_provider}
use pdq.Cli.Output.{output_results}
use pdq.Cli.Query.{
  Platform, Out, sql_text, query_builder, QueryReport, zero_match, queried, query_matched,
  query_after, query_report,
}

-- The result is a value that passes the test.
abbrev pub returned : {U : Type 0} → (U → Bool) → Result U → Bool
returned test (err reason) = false
returned test (ok value) = test value

module _ {W U : Type 0} (test : U → Bool) where
  -- No run of the action returns a value that passes the test.
  record Never (m : Exec W U) : Type 0 where
    never : (w : W) → returned test (m w).0 ≡ false

  and_then-Never :
      {T : Type 0} (x : Result T) (w : W) (k : T → Exec W U)
      → ((value : T) → Never (k value))
      → returned test (and_then k (x, w)).0 ≡ false
  and_then-Never (err reason) w k h = refl
  and_then-Never (ok value) w k h = (h value).never w

  Never-bind :
      {T : Type 0} (m : Exec W T) (k : T → Exec W U)
      → ((value : T) → Never (k value))
      → Never (m >>= k)
  Never-bind m k h = record { never = λ w. and_then-Never (m w).0 (m w).1 k h }

module _ (p : Platform) where
  abbrev pub is_zero_match : QueryReport p → Bool
  is_zero_match zero_match = true
  is_zero_match (queried matches) = false

module _ (p : Platform) (column term index_dir data_path format : Str)
    (output_file : Option Str) where
  query_matched-Never :
      (matches : List FileMatches)
      → Never
          (is_zero_match p)
          (query_matched p matches column term index_dir data_path format output_file)
  unfolding query_matched
  query_matched-Never matches =
      Never-bind (is_zero_match p)
        (lift (
          build_provider p.schemas p.fst p.Metadata p.read_index p.walk
            (query_builder p index_dir data_path)))
        _
        λ provider.
          Never-bind (is_zero_match p) (lift (p.run_sql provider (sql_text column term))) _
            λ results.
              Never-bind (is_zero_match p) (output_results p.writers format output_file results) _
                λ u. record { never = λ w. refl }

  query_after-zero_match :
      (matches : List FileMatches) (out : Out p)
      → (returned
            (is_zero_match p)
            (query_after p matches column term index_dir data_path format output_file out).0
          ≡ is_empty matches)
        × ((query_after p matches column term index_dir data_path format output_file out).1 ≡ (
            if is_empty matches
            then out
            else (query_after p matches column term index_dir data_path format output_file out).1))
  unfolding query_after
  query_after-zero_match [] out = (refl, refl)
  query_after-zero_match (m ∷ ms) out = ((query_matched-Never (m ∷ ms)).never out, refl)

  -- For an index directory of exactly these files, each indexed on the column: the query command
  -- ends with its zero-match report exactly if a full scan of the column finds, in no file, the
  -- term or a value that begins with the term and a byte 0; and where it finds none the command has
  -- put out no row and created no file.
  pub query_report-zero_match :
      (files : Corpus) (out : Out p)
      → IsIndexedCorpus p.hasher p.fst
          (p.read_index index_dir)
          (new p.fst (p.read_index index_dir)).0
          column
          files
      → (returned
            (is_zero_match p)
            (query_report p column term index_dir data_path format output_file out).0
          ≡ is_empty (scan_corpus (is_exact term) column files))
        × ((query_report p column term index_dir data_path format output_file out).1 ≡ (
            if is_empty (scan_corpus (is_exact term) column files)
            then out
            else (query_report p column term index_dir data_path format output_file out).1))
  unfolding query_report new
  query_report-zero_match files out indexed =
      let index = p.read_index index_dir in
      let found =
        (exact_search-eq-scan p.hasher p.fst index (new p.fst index).0 column files indexed
            term).result
          [] (IsCoherent-empty p.fst index) in
      let run : query_report p column term index_dir data_path format output_file out
          ≡ query_after p (scan_corpus (is_exact term) column files) column term index_dir data_path
              format output_file out =
        ap
          (λ (x : Result (List FileMatches)).
            and_then
              (λ matches. query_after p matches column term index_dir data_path format output_file)
              (x, out))
          found in
      rw run (query_after-zero_match (scan_corpus (is_exact term) column files) out)
