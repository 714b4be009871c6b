-- ===== src/Provider/Builder.antt =====
-- `PdqTableProviderBuilder`, `PdqTableProvider::new` and the inference of the schema in provider.rs.
-- Arrow's schemas and the file system are parameters; the parallel loop over the files is run in the
-- order of the directory walk.
pub mod Laws
use pdq.Prelude.{ℕ, Bool, true, false, Option, none, some, List, [], ◌∷◌, filter}
use pdq.Prelude.Result.{
  Error, Result, ok, err, missing_index_dir, missing_data_dir, no_parquet_files, ◌>>=◌,
}
use pdq.Text.{Str, codes}
use pdq.Fst.{Fst}
use pdq.IndexDir.{IndexDir}
use pdq.Query.Engine.{Engine, FstCache, new}
use pdq.Index.Indexer.{is_parquet}
use pdq.Provider.Footers.{MetadataCache, empty_cache}

-- `DEFAULT_METADATA_SIZE_HINT`
abbrev pub default_metadata_size_hint : ℕ
default_metadata_size_hint = 524288

pub record Builder : Type 0 where
  pub index_dir : Option Str
  pub data_dir : Option Str
  pub table_name : Option Str
  pub use_row_selections : Bool

abbrev pub new_builder : Builder
new_builder = record {
  index_dir = none;
  data_dir = none;
  table_name = none;
  use_row_selections = false;
}

abbrev pub with_index_dir : Str → Builder → Builder
with_index_dir path b = record b { index_dir = some path }

abbrev pub with_data_dir : Str → Builder → Builder
with_data_dir path b = record b { data_dir = some path }

abbrev pub with_table_name : Str → Builder → Builder
with_table_name name b = record b { table_name = some name }

abbrev pub with_row_selections : Bool → Builder → Builder
with_row_selections enabled b = record b { use_row_selections = enabled }

-- What the crates make of a file's schema, and of two.
pub record Schemas : Type 1 where
  pub Schema : Type 0
  -- `infer_schema_from_file`: `File::open`, `try_new`, `schema`
  pub schema_of : Str → Result Schema
  -- `Schema::try_merge` of two
  pub try_merge : Schema → Schema → Result Schema

module _ (schemas : Schemas) where
  pub infer_schemas : List Str → Result (List schemas.Schema)
  infer_schemas [] = ok []
  infer_schemas (path ∷ paths) = do
    schema ← schemas.schema_of path
    rest ← infer_schemas paths
    ok (schema ∷ rest)

  unfoldable pub merge_schemas : schemas.Schema → List schemas.Schema → Result schemas.Schema
  merge_schemas merged [] = ok merged
  merge_schemas merged (schema ∷ rest) = do
    merged' ← schemas.try_merge merged schema
    merge_schemas merged' rest

  -- The schema of the first file, with the others merged into it.
  abbrev pub merge_all : List schemas.Schema → Result schemas.Schema
  merge_all [] = err no_parquet_files
  merge_all (schema ∷ rest) = merge_schemas schema rest

  unfoldable pub infer_schema_from_files : List Str → Result schemas.Schema
  unfolding infer_schemas merge_schemas
  infer_schema_from_files [] = err no_parquet_files
  infer_schema_from_files (path ∷ paths) = do all ← infer_schemas (path ∷ paths); merge_all all

  -- `entries` are the paths that `WalkDir` gives for the data directory.
  unfoldable pub infer_schema_from_directory : List Str → Result schemas.Schema
  unfolding infer_schema_from_files is_parquet
  infer_schema_from_directory entries = infer_schema_from_files (filter is_parquet entries)

abbrev pub required : {A : Type 0} → Error → Option A → Result A
required e none = err e
required e (some a) = ok a

abbrev pub table_name_or_default : Option Str → Str
table_name_or_default none = codes "pdq_table"
table_name_or_default (some name) = name

module _ (schemas : Schemas) (fst : Fst) (M : Type 0) where
  pub record Provider : Type 0 where
    pub index_dir : IndexDir fst
    pub index_engine : Engine
    pub fst_cache : FstCache fst
    pub schema : schemas.Schema
    pub table_name : Str
    pub use_row_selections : Bool
    pub metadata_size_hint : Option ℕ
    pub metadata_cache : MetadataCache M

  -- `PdqTableProvider::new`
  unfoldable pub new_provider : IndexDir fst → List Str → Str → Bool → Result Provider
  unfolding infer_schema_from_directory new
  new_provider index_dir entries table_name use_row_selections = do
    schema ← infer_schema_from_directory schemas entries
    let (engine, cache) = new fst index_dir
    ok (record {
      index_dir = index_dir;
      index_engine = engine;
      fst_cache = cache;
      schema = schema;
      table_name = table_name;
      use_row_selections = use_row_selections;
      metadata_size_hint = some default_metadata_size_hint;
      metadata_cache = empty_cache;
    })

  -- `read_index` and `walk` are what the file system has under a path.
  unfoldable pub build_provider :
      (Str → IndexDir fst) → (Str → List Str) → Builder → Result Provider
  unfolding new_provider
  build_provider read_index walk b = do
    index_dir ← required missing_index_dir b.index_dir
    data_dir ← required missing_data_dir b.data_dir
    new_provider (read_index index_dir) (walk data_dir) (table_name_or_default b.table_name)
        b.use_row_selections
