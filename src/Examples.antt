-- ===== src/Examples.antt =====
-- Runs on concrete inputs, and each theorem of the results at an input that meets its hypotheses.
mod Data
mod World
mod Search
mod Index
mod Engine
mod Provider
mod Bloom
mod Corpus
mod Build
mod Races
mod Corpora
mod Listing
mod Cli
