-- ===== src/CorpusGen.antt =====
-- corpus_gen.rs, the generator of the corpus that the benchmarks search: Rng is its random numbers, Values
-- the random values made of them, Batch one row group and Write the files.
pub mod Rng
pub mod Values
pub mod Batch
pub mod Write
