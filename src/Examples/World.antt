-- ===== src/Examples/World.antt =====
-- A world with one data file, indexed already on another column, and what indexing it leaves.
use mathlib.Core.Option.{some-injective}
use pdq.Prelude.{ℕ, ◌≡◌, ◌<◌, length, refl, some, List, [], ◌∷◌, arith}
use pdq.Prelude.Result.{ok}
use pdq.Text.{Str, codes}
use pdq.Text.Decimal.{word, hex, decimal}
use pdq.Text.Lines.{IsLine, strip_cr}
use pdq.Assoc.{lookup, str_key}
use pdq.Fst.{list_fst}
use pdq.IndexDir.{missing, present, dir}
use pdq.Parquet.{RowGroup}
use pdq.Index.World.{DataFile, World}
use pdq.Index.Indexer.{index_file}
use pdq.Index.Fresh.{IsU64}
use pdq.Examples.Data.{ip, two_groups}

abbrev pub path : Str
path = codes "a.parquet"

abbrev pub hasher : Str → ℕ
hasher s = 5

abbrev pub data_file : DataFile
data_file = record { mtime = some 7; size = 9; groups = some two_groups }

abbrev pub before : World list_fst
before = record {
  files = (path, data_file) ∷ [];
  index =
      (codes "5", dir (record { metadata = missing; fsts = (codes "n", present (some [])) ∷ [] }))
      ∷ [];
  faults = [];
}

abbrev pub after : World list_fst
after = (index_file list_fst hasher path ip before).1

pub done : index_file list_fst hasher path ip before ≡ (ok tt, after)
unfolding index_file hex decimal
done = refl

pub line : IsLine path
unfolding strip_cr
line = record { no_newline = omega arith; no_cr = refl }

same_time : (mtime : ℕ) → data_file.mtime ≡ some mtime → mtime < word
same_time mtime e = rw (← some-injective 7 mtime e) (omega arith)

same_groups : (gs : List RowGroup) → data_file.groups ≡ some gs → length gs < word
same_groups gs e = rw (← some-injective two_groups gs e) (omega arith)

data_file-IsU64 : IsU64 data_file
data_file-IsU64 = record {
  time_fits = same_time;
  size_fits = omega arith;
  groups_fit = same_groups;
}

pub fits : (file : DataFile) → lookup path before.files ≡ some file → IsU64 file
unfolding lookup
fits file e = let q : data_file ≡ file = (let q' = e in cc) in rw (← q) data_file-IsU64
