-- ===== src/Index.antt =====
-- index.rs: the keys that `index_file` collects, and the files that the indexer reads and writes.
pub mod Keys
pub mod World
pub mod Metadata
pub mod Indexer
pub mod Frame
pub mod Success
pub mod Fresh
pub mod Interrupted
pub mod Orphans
