-- ===== src/Parquet.antt =====
-- What the code reads out of a Parquet file through the crates `parquet` and `arrow`: row groups,
-- each read as batches of named columns.
pub mod Laws
use pdq.Prelude.{
  ℕ, suc, Bool, true, false, Option, none, some, List, [], ◌∷◌, ◌++◌, if◌then◌else◌, any,
}
use pdq.Text.{Str, str_eq}

-- A column that `downcast_ref::<StringArray>` accepts, nulls included, or one of another type.
pub data Column : Type 0 where
  strings : List (Option Str) → Column
  other : Column

-- A `RecordBatch`.
abbrev pub Batch : Type 0
Batch = List (Str × Column)

-- One item of the batch reader: decoding may fail.
pub data BatchRead : Type 0 where
  batch : Batch → BatchRead
  broken : BatchRead

abbrev pub RowGroup : Type 0
RowGroup = List BatchRead

-- `column_by_name`
abbrev pub column_by_name : Str → Batch → Option Column
column_by_name name [] = none
column_by_name name ((n, c) ∷ b) = if str_eq n name then some c else column_by_name name b

-- `iter().flatten()`
abbrev pub non_null : List (Option Str) → List Str
non_null [] = []
non_null (none ∷ vs) = non_null vs
non_null (some v ∷ vs) = v ∷ non_null vs

-- The values of a column in a batch, as a reader of the file sees them.
abbrev pub column_values : Option Column → List Str
column_values (some (strings vs)) = non_null vs
column_values _ = []

abbrev pub batch_values : Str → BatchRead → List Str
batch_values name (batch b) = column_values (column_by_name name b)
batch_values name broken = []

-- All non-null strings that a row group holds in the column.
abbrev pub group_values : Str → RowGroup → List Str
group_values name [] = []
group_values name (b ∷ bs) = batch_values name b ++ group_values name bs

-- Every batch of the row group can be decoded.
abbrev pub is_readable : RowGroup → Bool
is_readable [] = true
is_readable (batch b ∷ bs) = is_readable bs
is_readable (broken ∷ bs) = false

-- A full scan: the row groups, counted from `idx`, in which some value of the column passes `q`.
unfoldable pub scan_groups : (Str → Bool) → Str → ℕ → List RowGroup → List ℕ
scan_groups q name idx [] = []
scan_groups q name idx (g ∷ gs) =
    let rest = scan_groups q name (suc idx) gs in
    if any q (group_values name g) then idx ∷ rest else rest
