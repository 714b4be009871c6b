-- ===== src/CorpusGen/Write.antt =====
-- `write_corpus` of corpus_gen.rs, with its constants. The writer of Parquet files is the crate's; a
-- file that it has not closed has no footer, and so cannot be read.
pub mod Paths
pub mod Groups
pub mod Frame
pub mod Files
pub mod Safety
pub mod Room
pub mod Planted
use pdq.Prelude.{
  ℕ, zero, suc, ◌+◌, ◌-◌, ◌*◌, ◌/◌, ◌%◌, Bool, true, false, ◌&&◌, List, [], ◌∷◌, ◌++◌, length, ◌==◌,
  if◌then◌else◌,
}
use pdq.Prelude.Result.{Result, io}
use pdq.Prelude.Exit.{Exit, finished, failed, stopped, panicked, Run, finish, try, ◌>>=◌}
use pdq.Text.{Str, codes}
use pdq.Text.Decimal.{decimal, word}
use pdq.Assoc.{Map, insert, str_key}
use pdq.IndexDir.{OnDisk, unreadable, present}
use pdq.CorpusGen.Rng
use pdq.CorpusGen.Batch.{Columns, Injection, build_batch}

abbrev pub single_needle : Str
single_needle = codes "192.168.133.7"

abbrev pub prefix_value : Str
prefix_value = codes "192.168.133.42"

abbrev pub domain_value : Str
domain_value = codes "com.evil.www"

-- What the function calls of the crates `arrow` and `parquet`.
pub record Arrow : Type 1 where
  pub Batch : Type 0
  pub Writer : Type 0
  -- the contents of a Parquet file
  pub Image : Type 0
  -- `RecordBatch::try_new`
  pub try_new : Columns → Result Batch
  -- `ArrowWriter::try_new`, with the properties for so many rows to a row group
  pub writer : ℕ → Exit Writer
  pub write : Batch → Writer → Result Writer
  pub flush : Writer → Result Writer
  pub close : Writer → Result Image

-- `n - 1` on `usize`, as in a release build: it wraps around.
abbrev pub pred_usize : ℕ → ℕ
pred_usize n = (n + word - 1) % word

abbrev pub zeros : ℕ → Str
zeros zero = []
zeros (suc n) = b'0' ∷ zeros n

-- `{fi:05}`
unfoldable pub padded : ℕ → Str
unfolding decimal
padded fi = let digits = decimal fi in zeros (5 - length digits) ++ digits

-- `data_dir.join(format!("part_{fi:05}.parquet"))`
unfoldable pub part_path : Str → ℕ → Str
unfolding padded
part_path data_dir fi = data_dir ++ (codes "/part_" ++ (padded fi ++ codes ".parquet"))

-- `format!("10.{}.{}.7", fi / 256, fi % 256)`
abbrev pub multi_ioc : ℕ → Str
multi_ioc fi = codes "10." ++ (decimal (fi / 256) ++ (b'.' ∷ decimal (fi % 256) ++ codes ".7"))

abbrev plant : Str → ℕ → Str → Injection
plant col row val = record { col = col; row = row; val = val }

-- The values to plant in row group `rgi` of file `fi`.
unfoldable pub injected : ℕ → ℕ → ℕ → ℕ → List Injection
injected needle_file needle_rg fi rgi =
    (if rgi == 0 then plant (codes "src_ip") 0 (multi_ioc fi) ∷ [] else [])
    ++ ((if fi == 0 && rgi == 0
          then plant (codes "src_ip") 1 prefix_value
            ∷ plant (codes "domain_rev") 0 domain_value
            ∷ []
          else [])
        ++ (if fi == needle_file && rgi == needle_rg
            then plant (codes "src_ip") 2 single_needle ∷ []
            else []))

-- `seed.wrapping_add(fi as u64).wrapping_mul(0x9E3779B97F4A7C15)`
abbrev pub file_seed : ℕ → ℕ → ℕ
file_seed seed fi = (seed + fi) % word * 0x9e3779b97f4a7c15 % word

module _ (arrow : Arrow) where
  -- The files by their paths; one entry for each creation to come, `true` makes it fail.
  pub record Disk : Type 0 where
    pub files : Map Str (OnDisk arrow.Image)
    pub faults : List Bool

  unfoldable pub fault : List Bool → Run Disk (Unit {0})
  fault [] d = (finished tt, d)
  fault (false ∷ fs) d = (finished tt, record d { faults = fs })
  fault (true ∷ fs) d = (failed io, record d { faults = fs })

  -- `create_dir_all`, or the opening of a file to write
  unfoldable pub attempt : Run Disk (Unit {0})
  unfolding fault
  attempt d = fault d.faults d

  unfoldable pub put_file : Str → OnDisk arrow.Image → Run Disk (Unit {0})
  unfolding insert
  put_file path contents d = (finished tt, record d { files = insert path contents d.files })

  -- `File::create(&path)`: the file is there, and holds nothing that can be read.
  unfoldable pub create_file : Str → Run Disk (Unit {0})
  unfolding attempt put_file
  create_file path = do _ ← attempt; put_file path unreadable

  -- A draw of the generator `rng`, with the state that it leaves.
  unfoldable pub draw : {T : Type 0} → Exit T × ℕ → Run Disk (T × ℕ)
  draw (finished value, rng) d = (finished (value, rng), d)
  draw (failed reason, rng) d = (failed reason, d)
  draw (stopped code, rng) d = (stopped code, d)
  draw (panicked, rng) d = (panicked, d)

  -- What does not change the disk.
  abbrev pub stay : {T : Type 0} → Exit T → Run Disk T
  stay outcome d = (outcome, d)

  unfoldable pub write_group : ℕ → List Injection → arrow.Writer → ℕ → Run Disk (arrow.Writer × ℕ)
  unfolding draw build_batch
  write_group rows_per_group injected writer rng = do
    drawn ← draw (build_batch arrow.try_new rows_per_group injected rng)
    writer' ← try (arrow.write drawn.0 writer)
    writer'' ← try (arrow.flush writer')
    finish (writer'', drawn.1)

  module _ (needle_file needle_rg rows_per_group : ℕ) where
    -- `for rgi in 0..row_groups_per_file`, with the rounds that are left
    unfoldable pub write_groups : ℕ → ℕ → ℕ → arrow.Writer → ℕ → Run Disk (arrow.Writer)
    unfolding write_group injected
    write_groups fi zero rgi writer rng = finish writer
    write_groups fi (suc left) rgi writer rng = do
      state ← write_group rows_per_group (injected needle_file needle_rg fi rgi) writer rng
      write_groups fi left (suc rgi) state.0 state.1

    unfoldable pub write_file : Str → ℕ → ℕ → ℕ → Run Disk (Unit {0})
    unfolding part_path create_file write_groups put_file
    write_file data_dir row_groups_per_file seed fi = do
      _ ← create_file (part_path data_dir fi)
      writer ← stay (arrow.writer rows_per_group)
      writer' ← write_groups fi row_groups_per_file 0 writer (Rng.new (file_seed seed fi))
      image ← try (arrow.close writer')
      put_file (part_path data_dir fi) (present image)

    -- `for fi in 0..n_files`, with the rounds that are left
    unfoldable pub write_files : Str → ℕ → ℕ → ℕ → ℕ → Run Disk (Unit {0})
    unfolding write_file
    write_files data_dir row_groups_per_file seed zero fi = finish tt
    write_files data_dir row_groups_per_file seed (suc left) fi = do
      _ ← write_file data_dir row_groups_per_file seed fi
      write_files data_dir row_groups_per_file seed left (suc fi)

  unfoldable pub write_corpus : Str → ℕ → ℕ → ℕ → ℕ → Run Disk (Unit {0})
  unfolding attempt write_files
  write_corpus data_dir n_files row_groups_per_file rows_per_group seed = do
    _ ← attempt
    write_files (pred_usize n_files) (pred_usize row_groups_per_file) rows_per_group data_dir
        row_groups_per_file seed n_files 0
