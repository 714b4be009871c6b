-- ===== src/Provider/Builder/Laws.antt =====
-- When the builder succeeds, and what it has built then.
use pdq.Prelude.{◌≡◌, refl, Bool, Option, none, some, List, [], ◌∷◌, All, filter, is_empty, false}
use pdq.Prelude.Result.{Error, ok, missing_index_dir, missing_data_dir, >>=-eq-ok, ok-injective}
use pdq.Text.{Str}
use pdq.Fst.{Fst}
use pdq.IndexDir.{IndexDir}
use pdq.Index.Indexer.{is_parquet}
use pdq.Query.Engine.{new}
use pdq.Provider.Builder.{
  Builder, Schemas, infer_schemas, infer_schema_from_files, infer_schema_from_directory, Provider,
  required, new_provider, build_provider,
}

required-inv : {A : Type 0} (e : Error) (o : Option A) (a : A) → required e o ≡ ok a → o ≡ some a
required-inv e none a done = cc
required-inv e (some b) a done = (let d = done in cc)

module _ (schemas : Schemas) where
  -- The schema of the file could be read.
  abbrev pub HasSchema : Str → Type 0
  HasSchema path = (schema : schemas.Schema) × (schemas.schema_of path ≡ ok schema)

  infer_schemas-HasSchema :
      (paths : List Str) (all : List schemas.Schema)
      → infer_schemas schemas paths ≡ ok all
      → All HasSchema paths
  unfolding infer_schemas
  infer_schemas-HasSchema [] all done = tt
  infer_schemas-HasSchema (path ∷ paths) all done =
      let ih = infer_schemas-HasSchema paths in
      let (schema, here, more) = >>=-eq-ok (schemas.schema_of path) _ done in
      let (rest, there, last) = >>=-eq-ok (infer_schemas schemas paths) _ more in
      ((schema, here), ih rest there)

  infer_schema_from_files-HasSchema :
      (paths : List Str) (schema : schemas.Schema)
      → infer_schema_from_files schemas paths ≡ ok schema
      → (is_empty paths ≡ false) × All HasSchema paths
  unfolding infer_schema_from_files
  infer_schema_from_files-HasSchema [] schema done = cc
  infer_schema_from_files-HasSchema (path ∷ paths) schema done =
      let (all, inferred, merged) = >>=-eq-ok (infer_schemas schemas (path ∷ paths)) _ done in
      (refl, infer_schemas-HasSchema (path ∷ paths) all inferred)

  -- If a schema is inferred, the directory holds some Parquet file and the schema of every
  -- Parquet file in it could be read.
  pub infer_schema_from_directory-HasSchema :
      (entries : List Str) (schema : schemas.Schema)
      → infer_schema_from_directory schemas entries ≡ ok schema
      → (is_empty (filter is_parquet entries) ≡ false) × All HasSchema (filter is_parquet entries)
  unfolding infer_schema_from_directory
  infer_schema_from_directory-HasSchema entries schema done =
      infer_schema_from_files-HasSchema (filter is_parquet entries) schema done

  module _ (fst : Fst) (M : Type 0) where
    new_provider-inv :
        (index_dir : IndexDir fst) (entries : List Str) (name : Str) (selections : Bool)
        (p : Provider schemas fst M)
        → new_provider schemas fst M index_dir entries name selections ≡ ok p
        → (infer_schema_from_directory schemas entries ≡ ok p.schema)
          × ((p.index_engine, p.fst_cache) ≡ new fst index_dir)
          × (p.use_row_selections ≡ selections)
    unfolding new_provider
    new_provider-inv index_dir entries name selections p done =
        let (schema, inferred, last) =
          >>=-eq-ok (infer_schema_from_directory schemas entries) _ done in
        rw (← ok-injective last) (inferred, refl, refl)

    -- If the builder succeeds, both directories were given, the schema is the one inferred from
    -- the data directory, the engine is the one that reading the index directory gives, with an
    -- empty cache of FSTs, and row selections are as they were set.
    pub build_provider-inv :
        (read_index : Str → IndexDir fst) (walk : Str → List Str) (b : Builder)
        (p : Provider schemas fst M)
        → build_provider schemas fst M read_index walk b ≡ ok p
        → (index_dir : Str) × (data_dir : Str) × (b.index_dir ≡ some index_dir)
          × (b.data_dir ≡ some data_dir)
          × (infer_schema_from_directory schemas (walk data_dir) ≡ ok p.schema)
          × ((p.index_engine, p.fst_cache) ≡ new fst (read_index index_dir))
          × (p.use_row_selections ≡ b.use_row_selections)
    unfolding build_provider
    build_provider-inv read_index walk b p done =
        let (index_dir, e, more) = >>=-eq-ok (required missing_index_dir b.index_dir) _ done in
        let (data_dir, f, last) = >>=-eq-ok (required missing_data_dir b.data_dir) _ more in
        let (inferred, opened, selected) =
          new_provider-inv (read_index index_dir) (walk data_dir) _ _ p last in
        (
          index_dir,
          data_dir,
          required-inv missing_index_dir b.index_dir index_dir e,
          required-inv missing_data_dir b.data_dir data_dir f,
          inferred,
          opened,
          selected,
        )
