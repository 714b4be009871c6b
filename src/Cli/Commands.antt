-- ===== src/Cli/Commands.antt =====
-- `main` of bin/pdq.rs after the command line is parsed: one function for each subcommand.
use pdq.Prelude.{ℕ, Bool, Option, none, some, [], ◌&&◌, if◌then◌else◌}
use pdq.Prelude.Exec.{Exec}
use pdq.Prelude.Exit.{Run, finish, exit, try, of_result, unwrap, ◌>>=◌}
use pdq.Text.{Str, codes, str_eq}
use pdq.Text.Decimal.{parse_usize}
use pdq.Index.World.{World}
use pdq.Index.Indexer.{build_index, prune_orphans}
use pdq.CorpusGen.Write.{Disk, write_corpus}
use pdq.Cli.{Report, unknown_search_type, no_results, found, search_command}
use pdq.Cli.Args.{Matches, get_one, get_flag}
use pdq.Cli.Query.{Platform, Out, QueryReport, query_report}

-- What a run changes: the data files and the index directory, what is put out, the corpus.
pub record System (p : Platform) : Type 0 where
  pub index : World p.fst
  pub out : Out p
  pub corpus : Disk p.arrow

module _ (p : Platform) where
  -- What the run says at its end.
  pub data MainReport : Type 0 where
    -- the number of folders pruned, if `--prune` was given
    indexed : Option ℕ → MainReport
    searched : Report → MainReport
    answered : QueryReport p → MainReport
    generated : ℕ → Str → MainReport

  -- `?` on an action of the indexer, of the query and of the generator.
  abbrev pub on_index : {T : Type 0} → Exec (World p.fst) T → Run (System p) T
  on_index action s = let (r, index) = action s.index in (of_result r, record s { index = index })

  abbrev pub on_out : {T : Type 0} → Exec (Out p) T → Run (System p) T
  on_out action s = let (r, out) = action s.out in (of_result r, record s { out = out })

  abbrev pub on_corpus : {T : Type 0} → Run (Disk p.arrow) T → Run (System p) T
  on_corpus action s = let (r, corpus) = action s.corpus in (r, record s { corpus = corpus })

  unfoldable pub prune_if : Bool → Run (System p) (Option ℕ)
  unfolding prune_orphans
  prune_if prune =
      if prune
      then (do pruned ← on_index (prune_orphans p.fst); finish (some pruned))
      else finish none

  -- `get_one::<String>(name)`
  unfoldable pub optional : Matches → Str → Run (System p) (Option Str)
  unfolding get_one
  optional m name s = (get_one m name, s)

  -- `get_one::<String>(name).unwrap()`
  unfoldable pub string_arg : Matches → Str → Run (System p) Str
  unfolding optional
  string_arg m name = do value ← optional m name; unwrap value

  -- `get_flag(name)`
  unfoldable pub flag : Matches → Str → Run (System p) Bool
  unfolding get_flag
  flag m name s = (get_flag m name, s)

  -- The world is that of the output directory.
  unfoldable pub index_command : Matches → Run (System p) MainReport
  unfolding string_arg flag prune_if build_index
  index_command m = do
    path ← string_arg m (codes "path")
    column ← string_arg m (codes "column")
    output ← string_arg m (codes "output")
    prune ← flag m (codes "prune")
    pruned ← prune_if prune
    _ ← on_index (build_index p.fst p.hasher (p.walk path) column)
    finish (indexed pruned)

  abbrev pub say_or_exit : Report → Run (System p) MainReport
  say_or_exit unknown_search_type = exit 1
  say_or_exit no_results = finish (searched no_results)
  say_or_exit (found total files matches) = finish (searched (found total files matches))

  unfoldable pub search_main : Matches → Run (System p) MainReport
  unfolding string_arg search_command
  search_main m = do
    column ← string_arg m (codes "column")
    term ← string_arg m (codes "term")
    index_dir ← string_arg m (codes "index-dir")
    search_type ← string_arg m (codes "type")
    report ← try (search_command p.fst (p.read_index index_dir) column term search_type []).0
    say_or_exit report

  unfoldable pub query_command : Matches → Run (System p) MainReport
  unfolding string_arg optional query_report
  query_command m = do
    column ← string_arg m (codes "column")
    term ← string_arg m (codes "term")
    index_dir ← string_arg m (codes "index-dir")
    data_path ← string_arg m (codes "data-path")
    output_format ← string_arg m (codes "format")
    output_file ← optional m (codes "output")
    report ← on_out (query_report p column term index_dir data_path output_format output_file)
    finish (answered report)

  -- `get_one::<String>(name).unwrap().parse()?`
  unfoldable pub number_arg : Matches → Str → Run (System p) ℕ
  unfolding string_arg parse_usize
  number_arg m name = do text ← string_arg m name; try (parse_usize text)

  unfoldable pub gen_corpus_command : Matches → Run (System p) MainReport
  unfolding string_arg number_arg write_corpus
  gen_corpus_command m = do
    out ← string_arg m (codes "out")
    files ← number_arg m (codes "files")
    row_groups ← number_arg m (codes "row-groups")
    rows_per_group ← number_arg m (codes "rows-per-group")
    seed ← number_arg m (codes "seed")
    _ ← on_corpus (write_corpus p.arrow out files row_groups rows_per_group seed)
    finish (generated files out)

  -- `match matches.subcommand()`; `shootout` is the feature of that name.
  unfoldable pub main : Bool → Option (Str × Matches) → Run (System p) MainReport
  unfolding index_command search_main query_command gen_corpus_command
  main shootout none = exit 1
  main shootout (some (name, m)) =
      if str_eq name (codes "index")
      then index_command m
      else if str_eq name (codes "search")
      then search_main m
      else if str_eq name (codes "query")
      then query_command m
      else if shootout && str_eq name (codes "gen-corpus")
      then gen_corpus_command m
      else exit 1
