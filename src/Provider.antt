-- ===== src/Provider.antt =====
-- provider.rs: the table provider that hands DataFusion the row groups which the index leaves.
pub mod Prune
pub mod Scan
pub mod Footers
pub mod Builder
