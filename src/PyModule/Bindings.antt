-- ===== src/PyModule/Bindings.antt =====
-- The classes of py_module.rs: `Indexer`, `Searcher` and `QueryEngine`. What crosses to Python, the
-- thread pool and DataFusion's session are the crates'.
use pdq.Prelude.{ℕ, Bool, true, false, Option, none, some, List, [], ◌∷◌, is_empty, if◌then◌else◌}
use pdq.Prelude.Result.{Error, Result, ok, err}
use pdq.Prelude.Exec.{Exec}
use pdq.Text.{Str, codes}
use pdq.Fst.{Fst}
use pdq.IndexDir.{IndexDir}
use pdq.Index.World.{World}
use pdq.Index.Indexer.{build_index}
use pdq.Query.Engine.{Engine, FstCache, FileMatches, exact_search, prefix_search, range_search}
use pdq.Provider.Builder.{
  Builder, Schemas, Provider, new_builder, with_index_dir, with_data_dir, build_provider,
}
use pdq.PyModule.{matches_to_record_batch}

-- `PyRuntimeError::new_err(format!("…: {}", e))`, by the text in front, and what the conversion to a
-- Python object raises.
pub data PyError : Type 0 where
  index_build_failed search_failed arrow_conversion_failed : Error → PyError
  create_runtime_failed create_provider_failed register_table_failed : Error → PyError
  get_table_failed build_filter_failed query_execution_failed : Error → PyError
  sql_query_failed collect_results_failed : Error → PyError
  task_failed conversion_raised : PyError

-- `PyResult`
pub data PyResult {ℓ} (T : Type ℓ) : Type ℓ where
  raised : PyError → PyResult T
  returned : T → PyResult T

infixl 5 ◌>>=◌
abbrev pub ◌>>=◌ {ℓ κ} : {T : Type ℓ} {U : Type κ} → PyResult T → (T → PyResult U) → PyResult U
raised e >>= k = raised e
returned value >>= k = k value

abbrev pub map_err {ℓ} : {T : Type ℓ} → (Error → PyError) → Result T → PyResult T
map_err label (err reason) = raised (label reason)
map_err label (ok value) = returned value

-- `Indexer.build_index`; `entries` are the paths below `data_dir`.
unfoldable pub py_build_index :
    (fst : Fst) → (Str → ℕ) → List Str → Str → World fst → PyResult (Unit {0}) × World fst
unfolding build_index
py_build_index fst hasher entries column w =
    let (r, w') = build_index fst hasher entries column w in (map_err index_build_failed r, w')

-- What crosses to Python.
pub record Python : Type 1 where
  pub Batch : Type 0
  pub Table : Type 0
  -- `RecordBatch::try_new` with the two columns of a search
  pub try_new : List Str → List ℕ → Result Batch
  -- `PyArrowType(batches).into_pyobject(py)`
  pub into_pyobject : List Batch → PyResult Table

module _ (fst : Fst) (index_dir : IndexDir fst) (py : Python) where
  -- The task is not joined if it panicked.
  abbrev joined_task : {T : Type 0} → Bool → T → PyResult T
  joined_task true value = returned value
  joined_task false value = raised task_failed

  -- `matches_to_record_batch`, and the table made of the one batch.
  unfoldable pub table_of : Result py.Batch → PyResult py.Table
  table_of r = do batch ← map_err arrow_conversion_failed r; py.into_pyobject (batch ∷ [])

  -- What the three searches do with the engine's search, which runs in a blocking task.
  unfoldable pub search_task :
      Bool
      → Exec (FstCache fst) (List FileMatches)
      → FstCache fst
      → PyResult py.Table × FstCache fst
  unfolding table_of matches_to_record_batch
  search_task joined search cache =
      let (r, cache') = search cache in
      (
        (do
          outcome ← joined_task joined r
          results ← map_err search_failed outcome
          table_of (matches_to_record_batch py.try_new results)),
        cache',
      )

  unfoldable pub py_exact_search :
      Bool → Engine → Str → Str → FstCache fst → PyResult py.Table × FstCache fst
  unfolding search_task exact_search
  py_exact_search joined engine column term =
      search_task joined (exact_search fst index_dir engine column term)

  unfoldable pub py_prefix_search :
      Bool → Engine → Str → Str → FstCache fst → PyResult py.Table × FstCache fst
  unfolding search_task prefix_search
  py_prefix_search joined engine column prefix =
      search_task joined (prefix_search fst index_dir engine column prefix)

  unfoldable pub py_range_search :
      Bool → Engine → Str → Str → Str → FstCache fst → PyResult py.Table × FstCache fst
  unfolding search_task range_search
  py_range_search joined engine column start end =
      search_task joined (range_search fst index_dir engine column start end)

-- DataFusion's `SessionContext` with the provider registered.
pub record Context (Batch : Type 0) : Type 1 where
  pub DataFrame : Type 0
  -- `table`
  pub table : Str → Result DataFrame
  -- `filter(col(column).eq(lit(term)))`
  pub filter_eq : Str → Str → DataFrame → Result DataFrame
  pub sql : Str → Result DataFrame
  pub collect : DataFrame → Result (List Batch)

module _ (py : Python) where
  -- `None` if nothing was found
  abbrev give_batches : List py.Batch → PyResult (Option py.Table)
  give_batches results =
      if is_empty results
      then returned none
      else (py.into_pyobject results >>= λ table. returned (some table))

  unfoldable pub py_query : Context py.Batch → Str → Str → PyResult (Option py.Table)
  py_query ctx column term = do
    df ← map_err get_table_failed (ctx.table (codes "pdq_data"))
    filtered ← map_err build_filter_failed (ctx.filter_eq column term df)
    results ← map_err query_execution_failed (ctx.collect filtered)
    give_batches results

  unfoldable pub py_sql_query : Context py.Batch → Str → PyResult (Option py.Table)
  py_sql_query ctx text = do
    df ← map_err sql_query_failed (ctx.sql text)
    results ← map_err collect_results_failed (ctx.collect df)
    give_batches results

module _ (schemas : Schemas) (fst : Fst) (M Batch : Type 0) where
  abbrev pub query_builder : Str → Str → Builder
  query_builder index_dir data_dir = with_data_dir data_dir (with_index_dir index_dir new_builder)

  -- `QueryEngine::new`: the runtime and the registration are the crates'.
  unfoldable pub new_query_engine :
      Result (Unit {0})
      → (Str → Provider schemas fst M → Result (Context Batch))
      → (Str → IndexDir fst)
      → (Str → List Str)
      → Str
      → Str
      → PyResult (Context Batch)
  unfolding build_provider
  new_query_engine runtime register read_index walk index_dir data_dir = do
    _ ← map_err create_runtime_failed runtime
    provider ←
        map_err create_provider_failed
          (build_provider schemas fst M read_index walk (query_builder index_dir data_dir))
    map_err register_table_failed (register (codes "pdq_data") provider)
