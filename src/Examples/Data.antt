-- ===== src/Examples/Data.antt =====
-- The data that the runs use: a file with two row groups, and its index.
use pdq.Prelude.{refl, none, some, List, [], ◌∷◌, ◌++◌, arith}
use pdq.Text.{Str, codes}
use pdq.Text.Decimal.{decimal}
use pdq.Fst.{list_fst}
use pdq.Parquet.{strings, other, batch, RowGroup}
use pdq.Index.Keys.{index_keys}
use pdq.Query.FullScan.{IsIndexOf}

abbrev pub ip : Str
ip = codes "ip"

abbrev pub two_groups : List RowGroup
two_groups =
    (batch ((ip, strings (some (codes "ab") ∷ none ∷ some (codes "b") ∷ [])) ∷ []) ∷ [])
    ∷ (batch ((codes "n", other) ∷ (ip, strings (some (codes "b") ∷ [])) ∷ []) ∷ [])
    ∷ []

abbrev pub two_groups_keys : List Str
two_groups_keys =
    (codes "ab" ++ 0 ∷ codes "rg0")
    ∷ (codes "b" ++ 0 ∷ codes "rg0")
    ∷ (codes "b" ++ 0 ∷ codes "rg1")
    ∷ []

pub two_groups-IsIndexOf : IsIndexOf list_fst two_groups_keys ip two_groups
unfolding index_keys decimal
two_groups-IsIndexOf = record {
  few = omega arith;
  keys = two_groups_keys;
  image = some two_groups_keys;
  collected = refl;
  built = refl;
  opened = refl;
}
