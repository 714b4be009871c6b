-- ===== src/Examples/Build.antt =====
-- Building the index of a directory, and building it again.
use pdq.Prelude.{◌≡◌, refl, true, List, [], ◌∷◌}
use pdq.Prelude.Result.{ok}
use pdq.Text.{Str, codes}
use pdq.Text.Decimal.{hex, decimal}
use pdq.Assoc.{str_key}
use pdq.Fst.{list_fst}
use pdq.Index.Indexer.{is_parquet, index_file, build_index_ext, build_index}
use pdq.EndToEnd.Build.{IsFit}
use pdq.EndToEnd.Again.{build_index-again}
use pdq.Examples.Data.{ip}
use pdq.Examples.World.{path, hasher, before, after, line, fits}

abbrev entries : List Str
entries = codes "notes.txt" ∷ path ∷ []

path-IsFit : IsFit list_fst hasher ip true before path
path-IsFit = record { line = line; numbers = fits }

built_first : build_index_ext list_fst hasher entries ip true before ≡ (ok tt, after)
unfolding build_index_ext hex decimal
built_first = refl

build_index-again_example : build_index list_fst hasher entries ip after ≡ (ok tt, after)
unfolding is_parquet index_file
build_index-again_example =
    build_index-again list_fst hasher ip true entries before after (path-IsFit, tt) (tt, tt)
      built_first refl
