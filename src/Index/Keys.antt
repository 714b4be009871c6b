-- ===== src/Index/Keys.antt =====
-- The keys of `index_file`: the loops over row groups, batches and values, and the `BTreeSet`.
pub mod Laws
use pdq.Prelude.{ℕ, suc, Option, none, some, List, [], ◌∷◌, if◌then◌else◌}
use pdq.Prelude.Result.{Result, ok, err, bad_batch, ◌>>=◌}
use pdq.Text.{Str}
use pdq.Text.Order.{lt_bytes}
use pdq.KeyFormat.{build_key}
use pdq.Parquet.{Column, strings, batch, broken, RowGroup, column_by_name}

-- `BTreeSet::insert`, in the order of the strings' bytes
unfoldable pub btree_insert : Str → List Str → List Str
btree_insert k [] = k ∷ []
btree_insert k (j ∷ js) =
    if lt_bytes k j then k ∷ j ∷ js else if lt_bytes j k then j ∷ btree_insert k js else j ∷ js

-- `for value in arr.iter().flatten()`
unfoldable pub insert_values : ℕ → List (Option Str) → List Str → List Str
unfolding btree_insert build_key
insert_values row_group_idx [] keys = keys
insert_values row_group_idx (none ∷ vs) keys = insert_values row_group_idx vs keys
insert_values row_group_idx (some value ∷ vs) keys =
    insert_values row_group_idx vs (btree_insert (build_key value row_group_idx) keys)

-- A batch without the column, or with a column of another type, adds nothing.
unfoldable pub insert_column : ℕ → Option Column → List Str → List Str
unfolding insert_values
insert_column row_group_idx (some (strings arr)) keys = insert_values row_group_idx arr keys
insert_column row_group_idx _ keys = keys

-- `for batch in batch_reader`
unfoldable pub insert_batches : Str → ℕ → RowGroup → List Str → Result (List Str)
unfolding insert_column
insert_batches column row_group_idx [] keys = ok keys
insert_batches column row_group_idx (broken ∷ bs) keys = err bad_batch
insert_batches column row_group_idx (batch b ∷ bs) keys =
    insert_batches column row_group_idx bs
      (insert_column row_group_idx (column_by_name column b) keys)

-- `for row_group_idx in 0..reader.num_row_groups()`
unfoldable pub insert_groups : Str → ℕ → List RowGroup → List Str → Result (List Str)
unfolding insert_batches
insert_groups column row_group_idx [] keys = ok keys
insert_groups column row_group_idx (g ∷ gs) keys = do
  keys' ← insert_batches column row_group_idx g keys
  insert_groups column (suc row_group_idx) gs keys'

unfoldable pub index_keys : Str → List RowGroup → Result (List Str)
unfolding insert_groups
index_keys column groups = insert_groups column 0 groups []
