-- ===== src/Cli/Output.antt =====
-- What the query subcommand writes: `write_batches_as_csv`, `write_batches_as_json` and the choice of
-- format and destination. The writers are those of the crate `arrow`.
use pdq.Prelude.{
  Bool, true, false, ◌&&◌, ◌||◌, Option, none, some, List, [], ◌∷◌, is_empty, if◌then◌else◌,
}
use pdq.Prelude.Exec.{Exec, pure, ◌>>=◌}
use pdq.Text.{Str, codes, str_eq}

pub data Destination : Type 0 where
  stdout : Destination
  file_at : Str → Destination

-- Writers of record batches. Each call changes what has been put out, or fails.
pub record Writers : Type 1 where
  pub Batch : Type 0
  -- standard output, the files and the writers on them
  pub Out : Type 0
  -- `File::create`
  pub create_file : Str → Exec Out (Unit {0})
  -- `WriterBuilder::new().with_header(true).build(writer)`
  pub open_csv : Destination → Exec Out (Unit {0})
  -- `csv_writer.write(batch)`
  pub write_csv : Destination → Batch → Exec Out (Unit {0})
  -- `LineDelimitedWriter::new(writer)`
  pub open_json : Destination → Exec Out (Unit {0})
  -- `json_writer.write_batches(&[batch])`
  pub write_json : Destination → Batch → Exec Out (Unit {0})
  -- `json_writer.finish()`
  pub finish_json : Destination → Exec Out (Unit {0})
  -- `pretty::print_batches`
  pub print_batches : List Batch → Exec Out (Unit {0})

abbrev pub is_none : Option Str → Bool
is_none none = true
is_none (some v) = false

module _ (w : Writers) where
  unfoldable pub write_each :
      (w.Batch → Exec w.Out (Unit {0})) → List w.Batch → Exec w.Out (Unit {0})
  write_each write [] = pure tt
  write_each write (batch ∷ batches) = do _ ← write batch; write_each write batches

  unfoldable pub write_batches_as_csv : Destination → List w.Batch → Exec w.Out (Unit {0})
  unfolding write_each
  write_batches_as_csv dest [] = pure tt
  write_batches_as_csv dest (batch ∷ batches) = do
    _ ← w.open_csv dest
    write_each (w.write_csv dest) (batch ∷ batches)

  unfoldable pub write_batches_as_json : Destination → List w.Batch → Exec w.Out (Unit {0})
  unfolding write_each
  write_batches_as_json dest [] = pure tt
  write_batches_as_json dest (batch ∷ batches) = do
    _ ← w.open_json dest
    _ ← write_each (w.write_json dest) (batch ∷ batches)
    w.finish_json dest

  -- `output_file`, opened.
  abbrev pub open_destination : Option Str → Exec w.Out Destination
  open_destination none = pure stdout
  open_destination (some path) = do _ ← w.create_file path; pure (file_at path)

  -- `match output_format.as_str()`
  unfoldable pub output_as : Str → Destination → List w.Batch → Exec w.Out (Unit {0})
  unfolding write_batches_as_csv write_batches_as_json
  output_as format dest results =
      if str_eq format (codes "csv")
      then write_batches_as_csv dest results
      else if str_eq format (codes "json")
          || str_eq format (codes "jsonl")
          || str_eq format (codes "ndjson")
      then write_batches_as_json dest results
      else if str_eq format (codes "table")
      then write_batches_as_csv dest results
      else write_batches_as_json dest results

  unfoldable pub write_out : Str → Option Str → List w.Batch → Exec w.Out (Unit {0})
  unfolding output_as
  write_out format output_file results = do
    dest ← open_destination output_file
    output_as format dest results

  unfoldable pub output_results : Str → Option Str → List w.Batch → Exec w.Out (Unit {0})
  unfolding write_out
  output_results format output_file results =
      if is_empty results
      then pure tt
      else if str_eq format (codes "table") && is_none output_file
      then w.print_batches results
      else write_out format output_file results
