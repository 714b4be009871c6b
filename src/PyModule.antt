-- ===== src/PyModule.antt =====
-- py_module.rs: here `Searcher::matches_to_record_batch`, the rows of the table that Python gets;
-- Bindings is what Python calls.
pub mod Rows
pub mod Bindings
pub mod Searches
use pdq.Prelude.{ℕ, ◌≡◌, refl, ap, ◌∙◌, ◌%◌, ◌<◌, List, [], ◌∷◌, ◌++◌, length, All, arith}
use pdq.Prelude.Result.{Result, ok}
use pdq.Text.{Str}
use pdq.Text.Decimal.{word}
use pdq.Query.Engine.{FileMatches}

-- The inner loop: one row for each row group, `row_group as u64`.
unfoldable pub push_rows : Str → List ℕ → List Str × List ℕ → List Str × List ℕ
push_rows path [] columns = columns
push_rows path (g ∷ gs) (file_paths, row_groups) =
    push_rows path gs (file_paths ++ path ∷ [], row_groups ++ g % word ∷ [])

unfoldable pub push_matches : List FileMatches → List Str × List ℕ → List Str × List ℕ
unfolding push_rows
push_matches [] columns = columns
push_matches (m ∷ ms) columns = push_matches ms (push_rows m.file_path m.row_groups columns)

-- `RecordBatch::try_new` is the crate's.
unfoldable pub matches_to_record_batch :
    {Batch : Type 0} → (List Str → List ℕ → Result Batch) → List FileMatches → Result Batch
unfolding push_matches
matches_to_record_batch try_new matches =
    let (file_paths, row_groups) = push_matches matches ([], []) in try_new file_paths row_groups
