-- ===== src/Examples/Cli.antt =====
-- The program run with a list for each thing that its crates keep.
use mathlib.Core.Option.{some-injective}
use pdq.Prelude.{
  ℕ, suc, ◌≡◌, refl, sym, ◌∙◌, true, false, none, some, [], ◌∷◌, if◌then◌else◌, arith,
}
use pdq.Prelude.Result.{ok, ok-injective}
use pdq.Prelude.Exit.{NeverPanics}
use pdq.Text.{Str, codes, str_eq}
use pdq.Text.Decimal.{hex, decimal, parse_usize}
use pdq.Assoc.{lookup, str_key}
use pdq.Fst.{list_fst}
use pdq.Index.Indexer.{index_file}
use pdq.Parquet.{scan_groups}
use pdq.Query.Engine.{new}
use pdq.Query.Engine.Corpus.{IsIndexedCorpus}
use pdq.Cli.Args.{Matches, gen_corpus_args}
use pdq.Cli.Output.{Writers}
use pdq.Cli.Query.{Platform, query_report}
use pdq.Cli.Commands.{main}
use pdq.Cli.Safety.{HasRoom, main-NeverPanics}
use pdq.Cli.ZeroMatch.{returned, is_zero_match, query_report-zero_match}
use pdq.Examples.Data.{ip}
use pdq.Examples.World.{path, hasher, after}
use pdq.Examples.Engine.{corpus, corpus-indexed}
use pdq.Examples.Provider.{schemas}
use pdq.Examples.Corpora.{list_arrow}

-- What is put out is counted in calls.
abbrev counted : Writers
counted = record {
  Batch = ℕ;
  Out = ℕ;
  create_file = λ p out. (ok tt, suc out);
  open_csv = λ d out. (ok tt, suc out);
  write_csv = λ d b out. (ok tt, suc out);
  open_json = λ d out. (ok tt, suc out);
  write_json = λ d b out. (ok tt, suc out);
  finish_json = λ d out. (ok tt, suc out);
  print_batches = λ bs out. (ok tt, suc out);
}

abbrev platform : Platform
platform = record {
  hasher = hasher;
  fst = list_fst;
  schemas = schemas;
  Metadata = ℕ;
  writers = counted;
  arrow = list_arrow;
  read_index = λ p. after.index;
  walk = λ p. path ∷ [];
  run_sql = λ provider sql. ok (1 ∷ []);
}

-- `pdq gen-corpus --out data --files 2 --row-groups 1 --rows-per-group 3`
abbrev given : Matches
given = record {
  declared = gen_corpus_args;
  values = λ name.
      if str_eq name (codes "out")
      then some (codes "data")
      else if str_eq name (codes "files")
      then some (codes "2")
      else if str_eq name (codes "row-groups")
      then some (codes "1")
      else if str_eq name (codes "rows-per-group")
      then some (codes "3")
      else if str_eq name (codes "seed")
      then some (codes "42")
      else none;
  flags = λ name. false;
}

three : (text : Str) → some (codes "3") ≡ some text → parse_usize text ≡ ok 3
unfolding parse_usize
three text e = rw (← some-injective (codes "3") text e) refl

given-HasRoom : HasRoom platform given
given-HasRoom text n e f =
    let size : 3 ≡ n = ok-injective (sym (three text e) ∙ f) in rw (← size) (omega arith, refl)

main-NeverPanics_example : NeverPanics (main platform true (some (codes "gen-corpus", given)))
unfolding lookup
main-NeverPanics_example =
    main-NeverPanics platform true (codes "gen-corpus") given refl
      (
        λ r. (codes "data", refl),
        (
          λ r. (codes "2", refl),
          (λ r. (codes "1", refl), (λ r. (codes "3", refl), (λ r. (codes "42", refl), tt))),
        ),
      )
      given-HasRoom

opened-indexed : IsIndexedCorpus hasher list_fst after.index (new list_fst after.index).0 ip corpus
unfolding new index_file hex decimal
opened-indexed = corpus-indexed

query_report-zero_match_example :
    (returned
        (is_zero_match platform)
        (query_report platform ip (codes "c") (codes "i") (codes "d") (codes "csv") none 0).0
      ≡ true)
    × ((query_report platform ip (codes "c") (codes "i") (codes "d") (codes "csv") none 0).1 ≡ 0)
unfolding scan_groups
query_report-zero_match_example =
    query_report-zero_match platform ip (codes "c") (codes "i") (codes "d") (codes "csv") none
      corpus 0 opened-indexed
