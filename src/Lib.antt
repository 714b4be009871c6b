-- ===== src/Lib.antt =====
-- Verification of pdq: an index over Parquet files that says in which row groups of which files a
-- value occurs.
--
-- The program has four parts. The indexer (src/index.rs) reads a column of a Parquet file and writes,
-- in a folder named by the hash of the file's path, `metadata.txt` and an FST with a key
-- `value \0 rg<row group>` for each value in each row group. The query engine (src/query.rs) reads
-- the folders, opens FSTs through a cache and searches them for a term, a prefix or a range. The table
-- provider (src/provider.rs) turns the equality filters of a SQL query into searches and gives
-- DataFusion a plan that reads only the row groups found. The command line (src/bin/pdq.rs) and the
-- Python module (src/py_module.rs) call these. For benchmarks there are a generator of a corpus
-- (src/corpus_gen.rs) and probes of the bloom filters in Parquet files (src/bloom_probe.rs).
--
-- Which file models which part:
--   Prelude, Text, RowSet, Assoc   shared names, results and actions, among them Prelude/Exit for code
--                that may also panic or end the process; strings as UTF-8 bytes, their order, decimal
--                numbers and lines; sets of row groups; hash maps
--   Fst, IndexDir, Parquet         the crate `fst` as an interface with its laws and one
--                implementation of it; the index directory; what is read out of a Parquet file
--   KeyFormat    the constants of src/lib.rs, `append_usize`, `parse_row_group_from_key`
--   Index        `Indexer`: Keys is the BTreeSet of keys, World the state and its writes, Metadata
--                `needs_indexing`, Indexer `index_file`, `build_index_ext` and `prune_orphans`
--   Query        Search is `search_set`, `set_has_term`, `prefix_search_set`, `range_search_set`;
--                Engine is `IndexQueryEngine` and its searches over all files, Engine/Races its cache
--                under concurrent calls; Listing is `resolve_file_paths`, `get_available_columns` and
--                `list_indexed_files`
--   EndToEnd     what the engine reads of what the indexer wrote, and a build of a whole directory
--   Provider     Prune is `prune_with_fst_index`, Scan is `scan`, Footers the `MetadataCache` and its
--                readers, Builder the builder and the inference of the schema
--   PyModule     `Searcher::matches_to_record_batch`; Bindings the methods that Python calls
--   BloomProbe   the probes of src/bloom_probe.rs with their count of bytes, and `fst_index_bytes`
--   CorpusGen    Rng, Values, Batch and Write are src/corpus_gen.rs from the random numbers up to
--                `write_corpus`
--   Cli          Args is what `main` of src/bin/pdq.rs declares to clap, Commands its subcommands and
--                `main` itself, Query the query subcommand, Output the writing of its rows; the search
--                subcommand stands in Cli itself
--   Examples     runs on concrete inputs
-- The theorems stand in the child modules of each part.
--
-- State and errors. An operation on the file system or on the cache is a function from the state to
-- a result and the new state, and what was written before an error stays written. The world of the
-- indexer holds the data files, which lie outside of the index directory, the index directory, and
-- a list that says which of the next writes fail; a write that fails changes nothing. An index is
-- kept by the name of its column: `{column}.fst` is a file of the folder as long as that name holds
-- no `/`, and what a `/` does is not modelled (`IsFileName` in IndexDir.antt). `File::create` is a
-- write of its own, and leaves a file that does not open as an FST. All causes of an error of one
-- kind share one value of `Error`. `unwrap`, an argument that is not declared and indexing out of
-- bounds are a panic, and `process::exit` an end of its own, in src/bin/pdq.rs and
-- src/corpus_gen.rs; the indexer, the engine and the provider are modelled as actions that return a
-- result. The generator of random numbers is part of the state of `build_batch`.
--
-- Parameters. What `DefaultHasher` makes of a path is a function `hasher`; no theorem but those
-- that say so assumes that two paths have different hashes. The crates `fst`, `parquet`, `arrow`
-- and `datafusion` are parameters: `Fst` (Fst.antt) with its laws, the decoded batches
-- (Parquet.antt), the session, the file system at planning and the schemas (Provider), the writer
-- of Parquet files (CorpusGen/Write.antt; `IsArrow` says what is relied on), the writers of rows
-- (Cli/Output.antt), the filters and what is read for them (BloomProbe.antt), Python and its
-- context (PyModule/Bindings.antt). What clap hands back is a function from names to values beside
-- the declared arguments (Cli/Args.antt); that it supplies required and default arguments is a
-- hypothesis where it is used. What a footer gives depends on the files at the time and on the
-- reader's options (Provider/Footers.antt). Directory walks are lists of paths, and paths are valid
-- UTF-8.
--
-- Bounds. `usize` and `u64` have 64 bits; `word` is 2 ^ 64. Arithmetic on numbers that are read or
-- drawn, the counters of hits, misses and bytes, and `n - 1` wrap around as in a release build; the
-- sums over all files wrap as well. Counts of the elements of one list, and of the folders of one
-- directory, are not reduced, since no list is that long. Decimal printing recurs on fuel that the
-- number itself bounds, which is enough because each digit divides it by ten. Text is a list of
-- bytes, and decoding it refuses what `from_utf8` refuses.
--
-- Order. Parallel loops run in the order of their list, since their rounds share only the caches;
-- of several errors the first is returned. Hash maps and hash sets are lists in an order that no
-- theorem depends on. The readers of the metadata cache, and the calls of `get_or_load_set`, are
-- also modelled as steps that interleave; what is done under one lock is one step, and waiting for
-- a lock and poisoning are left out.
--
-- Not modelled: the parsing of the command line, the texts printed on the way and the help texts;
-- the schema and the writer's properties of src/corpus_gen.rs; the registration of the Python
-- classes; the benchmarks, scripts and tests; and src/parquet_filter.rs, which src/lib.rs does not
-- declare and which calls functions that the crate does not have.
pub mod Assoc
pub mod BloomProbe
pub mod Cli
pub mod CorpusGen
pub mod EndToEnd
pub mod Examples
pub mod Fst
pub mod Index
pub mod IndexDir
pub mod KeyFormat
pub mod Parquet
pub mod Prelude
pub mod Provider
pub mod PyModule
pub mod Query
pub mod RowSet
pub mod Text
