-- ===== src/Cli/Args.antt =====
-- The arguments that `main` of bin/pdq.rs declares to clap, and what clap hands back. A help text is
-- left out.
use pdq.Prelude.{
  ◌≡◌, Bool, true, false, ◌||◌, ◌&&◌, not, any, Option, none, some, List, [], ◌∷◌, All,
  if◌then◌else◌,
}
use pdq.Prelude.Exit.{Exit, finished, panicked}
use pdq.Text.{Str, codes, str_eq}

-- `Arg::new(name)`, with `required`, `default_value` and `ArgAction::SetTrue`.
pub record Arg : Type 0 where
  pub name : Str
  pub required : Bool
  pub default_value : Option Str
  pub is_flag : Bool

abbrev required_arg : Str → Arg
required_arg name = record { name = name; required = true; default_value = none; is_flag = false }

abbrev default_arg : Str → Str → Arg
default_arg name value = record {
  name = name;
  required = false;
  default_value = some value;
  is_flag = false;
}

abbrev optional_arg : Str → Arg
optional_arg name = record { name = name; required = false; default_value = none; is_flag = false }

abbrev flag_arg : Str → Arg
flag_arg name = record { name = name; required = false; default_value = none; is_flag = true }

abbrev pub index_args : List Arg
index_args =
    required_arg (codes "path")
    ∷ required_arg (codes "column")
    ∷ default_arg (codes "output") (codes "pdq-index")
    ∷ flag_arg (codes "prune")
    ∷ []

abbrev pub search_args : List Arg
search_args =
    required_arg (codes "column")
    ∷ required_arg (codes "term")
    ∷ default_arg (codes "index-dir") (codes "pdq-index")
    ∷ default_arg (codes "type") (codes "exact")
    ∷ []

abbrev pub query_args : List Arg
query_args =
    required_arg (codes "column")
    ∷ required_arg (codes "term")
    ∷ default_arg (codes "index-dir") (codes "pdq-index")
    ∷ required_arg (codes "data-path")
    ∷ default_arg (codes "format") (codes "table")
    ∷ optional_arg (codes "output")
    ∷ []

abbrev pub gen_corpus_args : List Arg
gen_corpus_args =
    required_arg (codes "out")
    ∷ required_arg (codes "files")
    ∷ required_arg (codes "row-groups")
    ∷ required_arg (codes "rows-per-group")
    ∷ default_arg (codes "seed") (codes "42")
    ∷ []

-- The subcommands, with and without the feature `shootout`.
abbrev pub subcommands : Bool → List (Str × List Arg)
subcommands shootout =
    (codes "index", index_args)
    ∷ (codes "search", search_args)
    ∷ (codes "query", query_args)
    ∷ (if shootout then (codes "gen-corpus", gen_corpus_args) ∷ [] else [])

-- `ArgMatches` of a subcommand: its declared arguments, and what the command line gives for them.
pub record Matches : Type 0 where
  pub declared : List Arg
  pub values : Str → Option Str
  pub flags : Str → Bool

-- The argument of that name takes a value, or is a flag.
abbrev pub is_value_arg : Str → Arg → Bool
is_value_arg name a = str_eq a.name name && not a.is_flag

abbrev pub is_flag_arg : Str → Arg → Bool
is_flag_arg name a = str_eq a.name name && a.is_flag

-- `get_one::<String>(name)`, which panics if no argument of that name and type is declared
unfoldable pub get_one : Matches → Str → Exit (Option Str)
get_one m name = if any (is_value_arg name) m.declared then finished (m.values name) else panicked

-- `get_flag(name)`, which panics if no flag of that name is declared
unfoldable pub get_flag : Matches → Str → Exit Bool
get_flag m name = if any (is_flag_arg name) m.declared then finished (m.flags name) else panicked

abbrev has_default : Option Str → Bool
has_default none = false
has_default (some v) = true

-- clap refuses a command line without a required argument, and fills in a default value.
abbrev pub IsSupplied : Matches → Arg → Type 0
IsSupplied m a =
    (a.required || has_default a.default_value) ≡ true
    → (value : Str) × (m.values a.name ≡ some value)

-- What clap hands back for the arguments of a subcommand.
abbrev pub AllSupplied : Matches → List Arg → Type 0
AllSupplied m = All (IsSupplied m)
