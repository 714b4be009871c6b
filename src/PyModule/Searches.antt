-- ===== src/PyModule/Searches.antt =====
-- What Python gets from a search, against a full scan of the data.
use pdq.Prelude.{
  ℕ, suc, ◌+◌, ◌≤◌, ◌≡◌, refl, Bool, true, false, List, [], ◌∷◌, map, length, All, any,
  if◌then◌else◌, arith,
}
use pdq.Text.{Str}
use pdq.Text.Decimal.{word}
use pdq.Fst.{Fst}
use pdq.IndexDir.{IndexDir}
use pdq.Parquet.{RowGroup, group_values, scan_groups}
use pdq.Query.Ranges.{is_exact}
use pdq.Query.Engine.{Engine, FstCache, FileMatches}
use pdq.Query.Engine.Cache.{IsCoherent}
use pdq.Query.Engine.Corpus.{
  Corpus, scan_corpus, with_match, IsIndexed, IsIndexedCorpus, exact_search-eq-scan,
}
use pdq.PyModule.Rows.{rows, IsWord, matches_to_record_batch-rows}
use pdq.PyModule.Bindings.{
  Python, arrow_conversion_failed, ◌>>=◌, map_err, table_of, search_task, py_exact_search,
}

All-if_cons :
    (b : Bool) (g : ℕ) (gs : List ℕ)
    → IsWord g
    → All IsWord gs
    → All IsWord (if b then g ∷ gs else gs)
All-if_cons true g gs p h = (p, h)
All-if_cons false g gs p h = h

scan_groups-IsWord :
    (q : Str → Bool) (column : Str) (idx : ℕ) (groups : List RowGroup)
    → idx + length groups ≤ word
    → All IsWord (scan_groups q column idx groups)
unfolding scan_groups
scan_groups-IsWord q column idx [] h = tt
scan_groups-IsWord q column idx (g ∷ gs) h =
    All-if_cons (any q (group_values column g)) idx (scan_groups q column (suc idx) gs)
      (omega arith) (scan_groups-IsWord q column (suc idx) gs (omega arith))

with_match-IsWord :
    (path : Str) (gs : List ℕ) (rest : List FileMatches)
    → All IsWord gs
    → All (λ (m : FileMatches). All IsWord m.row_groups) rest
    → All (λ (m : FileMatches). All IsWord m.row_groups) (with_match path gs rest)
with_match-IsWord path [] rest h hs = hs
with_match-IsWord path (g ∷ gs) rest h hs = (h, hs)

module _ (hasher : Str → ℕ) (fst : Fst) (index_dir : IndexDir fst) (e : Engine) (column : Str) where
  scan_corpus-IsWord :
      (q : Str → Bool) (files : Corpus)
      → All (IsIndexed hasher fst index_dir e column) files
      → All (λ (m : FileMatches). All IsWord m.row_groups) (scan_corpus q column files)
  scan_corpus-IsWord q [] h = tt
  scan_corpus-IsWord q ((path, groups) ∷ files) (i, h) =
      let few = i.index_of.few in
      with_match-IsWord path (scan_groups q column 0 groups) (scan_corpus q column files)
        (scan_groups-IsWord q column 0 groups (omega arith)) (scan_corpus-IsWord q files h)

  -- For an engine that knows exactly these files, over an index directory in which each of them is
  -- indexed on the column, from a coherent cache, and where the task is joined: Python's exact
  -- search lists all pairs of a file and a row group in which a full scan of the column finds the
  -- term or a value that begins with the term and a byte 0, makes a batch of the files and of the
  -- row groups, and returns what the conversion makes of this one batch, or the error of one of the
  -- two steps; and it leaves the cache coherent.
  pub py_exact_search-rows :
      (files : Corpus) (py : Python) (term : Str) (cache : FstCache fst)
      → IsIndexedCorpus hasher fst index_dir e column files
      → IsCoherent fst index_dir cache
      → ((py_exact_search fst index_dir py true e column term cache).0 ≡ (
          map_err arrow_conversion_failed (
            py.try_new
              (map (λ r. r.0) (rows (scan_corpus (is_exact term) column files)))
              (map (λ r. r.1) (rows (scan_corpus (is_exact term) column files))))
          >>= λ batch. py.into_pyobject (batch ∷ [])))
        × IsCoherent fst index_dir (py_exact_search fst index_dir py true e column term cache).1
  unfolding py_exact_search table_of search_task
  py_exact_search-rows files py term cache x c =
      let s = exact_search-eq-scan hasher fst index_dir e column files x term in
      (
        (rw
            (
              s.result cache c,
              matches_to_record_batch-rows py.try_new (scan_corpus (is_exact term) column files)
                  (scan_corpus-IsWord (is_exact term) files x.indexed),
            )
            refl),
        s.keeps cache c,
      )
