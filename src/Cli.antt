-- ===== src/Cli.antt =====
-- bin/pdq.rs. Args is what `main` declares to the argument parser, Commands one function for each
-- subcommand; Search and Query are what the search and the query subcommands compute, and Output how
-- the rows of a query are put out.
pub mod Search
pub mod Args
pub mod Output
pub mod Query
pub mod Commands
pub mod Safety
pub mod ZeroMatch
use pdq.Prelude.{
  ℕ, ◌+◌, ◌%◌, Bool, Option, none, some, List, [], ◌∷◌, ◌++◌, length, if◌then◌else◌, is_empty,
}
use pdq.Prelude.Exec.{Exec, pure, lift, ◌>>=◌}
use pdq.Text.{Str, codes, str_eq}
use pdq.Text.Decimal.{word}
use pdq.Fst.{Fst}
use pdq.IndexDir.{IndexDir}
use pdq.Query.Engine.{Engine, FstCache, FileMatches, new, exact_search, prefix_search, range_search}

pub data SearchType : Type 0 where
  exact_type prefix_type range_type unknown_type : SearchType

-- `match search_type.as_str()`
unfoldable pub search_type : Str → SearchType
search_type arg =
    if str_eq arg (codes "exact")
    then exact_type
    else if str_eq arg (codes "prefix")
    then prefix_type
    else if str_eq arg (codes "range")
    then range_type
    else unknown_type

-- What the command does: it ends with an error message and code 1, says that there is nothing, or
-- prints the totals and the matches.
pub data Report : Type 0 where
  unknown_search_type : Report
  no_results : Report
  found : ℕ → ℕ → List FileMatches → Report

-- `iter().map(|v| v.row_groups.len()).sum()`
unfoldable pub total_row_groups : List FileMatches → ℕ
total_row_groups [] = 0
total_row_groups (m ∷ ms) = (length m.row_groups + total_row_groups ms) % word

unfoldable pub report : List FileMatches → Report
unfolding total_row_groups
report matches =
    if is_empty matches
    then no_results
    else found (total_row_groups matches) (length matches) matches

-- `format!("{term}~")`
abbrev pub end_term : Str → Str
end_term term = term ++ codes "~"

module _ (fst : Fst) (index_dir : IndexDir fst) where
  unfoldable pub run_search : Engine → SearchType → Str → Str → Exec (FstCache fst) Report
  unfolding exact_search prefix_search range_search report
  run_search engine exact_type column term = do
    matches ← exact_search fst index_dir engine column term
    pure (report matches)
  run_search engine prefix_type column term = do
    matches ← prefix_search fst index_dir engine column term
    pure (report matches)
  run_search engine range_type column term = do
    matches ← range_search fst index_dir engine column term (end_term term)
    pure (report matches)
  run_search engine unknown_type column term = pure unknown_search_type

  -- The subcommand, from its arguments to its report.
  unfoldable pub search_command : Str → Str → Str → Exec (FstCache fst) Report
  unfolding run_search search_type new
  search_command column term arg = run_search (new fst index_dir).0 (search_type arg) column term
