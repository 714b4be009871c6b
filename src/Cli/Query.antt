-- ===== src/Cli/Query.antt =====
-- The query subcommand of bin/pdq.rs: the index is searched first, and only if it has a match is the
-- provider built and the SQL run.
use pdq.Prelude.{ℕ, Option, List, ◌++◌, is_empty, if◌then◌else◌}
use pdq.Prelude.Result.{Result}
use pdq.Prelude.Exec.{Exec, lift, pure, ◌>>=◌}
use pdq.Text.{Str, codes}
use pdq.Fst.{Fst}
use pdq.IndexDir.{IndexDir}
use pdq.Query.Engine.{FileMatches, new, exact_search}
use pdq.Provider.Builder.{
  Builder, Schemas, Provider, new_builder, with_index_dir, with_data_dir, with_table_name,
  build_provider,
}
use pdq.CorpusGen.Write.{Arrow}
use pdq.Cli.Output.{Writers, output_results}

-- What the program has from the operating system and from its crates.
pub record Platform : Type 1 where
  pub hasher : Str → ℕ
  pub fst : Fst
  pub schemas : Schemas
  pub Metadata : Type 0
  pub writers : Writers
  pub arrow : Arrow
  -- the index directory at a path
  pub read_index : Str → IndexDir fst
  -- the walk of a directory
  pub walk : Str → List Str
  -- `register_table` under the name `pdq_table`, `sql` and `collect`
  pub run_sql : Provider schemas fst Metadata → Str → Result (List writers.Batch)

-- `format!("SELECT * FROM pdq_table WHERE {column} = '{term}'")`
unfoldable pub sql_text : Str → Str → Str
sql_text column term =
    codes "SELECT * FROM pdq_table WHERE " ++ (column ++ (codes " = '" ++ (term ++ codes "'")))

module _ (p : Platform) where
  pub data QueryReport : Type 0 where
    -- "ZERO-MATCH OPTIMIZATION TRIGGERED": nothing else is done
    zero_match : QueryReport
    queried : List FileMatches → QueryReport

  abbrev pub Out : Type 0
  Out = Writers.Out p.writers

  abbrev pub query_builder : Str → Str → Builder
  query_builder index_dir data_path =
      with_data_dir data_path
        (with_index_dir index_dir (with_table_name (codes "pdq_table") new_builder))

  -- What is done if the index has a match.
  unfoldable pub query_matched :
      List FileMatches → Str → Str → Str → Str → Str → Option Str → Exec Out QueryReport
  unfolding build_provider sql_text output_results
  query_matched matches column term index_dir data_path format output_file = do
    provider ← lift (
        build_provider p.schemas p.fst p.Metadata p.read_index p.walk
          (query_builder index_dir data_path))
    results ← lift (p.run_sql provider (sql_text column term))
    _ ← output_results p.writers format output_file results
    pure (queried matches)

  -- `file_row_groups.is_empty()`
  unfoldable pub query_after :
      List FileMatches → Str → Str → Str → Str → Str → Option Str → Exec Out QueryReport
  unfolding query_matched
  query_after matches column term index_dir data_path format output_file =
      if is_empty matches
      then pure zero_match
      else query_matched matches column term index_dir data_path format output_file

  unfoldable pub query_report : Str → Str → Str → Str → Str → Option Str → Exec Out QueryReport
  unfolding query_after new exact_search
  query_report column term index_dir data_path format output_file =
      let index = p.read_index index_dir in
      let (engine, cache) = new p.fst index in
      (lift (exact_search p.fst index engine column term cache).0) >>= λ matches.
      query_after matches column term index_dir data_path format output_file
