-- ===== src/Query/Engine/Prefix.antt =====
-- Prefix and range searches over all indexed files against a full scan of the data.
use pdq.Prelude.{ℕ, ◌≢◌, ◌&&◌, List, [], ◌∷◌, ◌++◌, All, All-intro}
use pdq.Prelude.Result.{ok}
use pdq.Text.{Str, starts_with, IsNulFree}
use pdq.Text.Order.{le_bytes}
use pdq.Text.Utf8.{IsScalar, encode}
use pdq.Fst.{Fst}
use pdq.IndexDir.{IndexDir}
use pdq.Parquet.{RowGroup}
use pdq.Parquet.Laws.{AllValues}
use pdq.Query.Search.{prefix_search_set, range_search_set}
use pdq.Query.FullScan.{prefix_search_set-eq-scan, range_search_set-eq-scan}
use pdq.Query.Engine.{Engine, prefix_search, range_search}
use pdq.Query.Engine.Cache.{Returns, search_all-Returns}
use pdq.Query.Engine.Corpus.{Corpus, scan_corpus, Answers, IsIndexedCorpus, search_all-Answers}

module _ (hasher : Str → ℕ) (fst : Fst) (index_dir : IndexDir fst) (e : Engine) (column : Str)
    (files : Corpus) (x : IsIndexedCorpus hasher fst index_dir e column files) where
  -- For an engine that knows exactly these files, over an index directory in which each of them is
  -- indexed on the column, from a coherent cache, and for a prefix of one or more characters, with
  -- no byte 0 in it and not ending in U+10FFFF: a prefix search returns, without an error, what a
  -- full scan of the column in every file finds to start with the prefix, and leaves the cache
  -- coherent.
  pub prefix_search-eq-scan :
      (cs : List ℕ) (c : ℕ)
      → All IsScalar (cs ++ c ∷ [])
      → c ≢ 0x10ffff
      → IsNulFree (encode (cs ++ c ∷ []))
      → Returns fst index_dir
          (prefix_search fst index_dir e column (encode (cs ++ c ∷ [])))
          (ok (scan_corpus (λ v. starts_with v (encode (cs ++ c ∷ []))) column files))
  unfolding prefix_search
  prefix_search-eq-scan cs c valid below clean =
      let prefix = encode (cs ++ c ∷ []) in
      let search = λ (s : fst.Keys). prefix_search_set fst s prefix in
      let q = λ (v : Str). starts_with v prefix in
      let answers : All (Answers hasher fst index_dir e column search q) files =
        All-intro (Answers hasher fst index_dir e column search q) files
          (λ f set ix. prefix_search_set-eq-scan fst set column f.1 ix cs c valid below clean) in
      rw (← search_all-Answers hasher fst index_dir e column files x search q answers)
        (search_all-Returns fst index_dir e column search)

  -- The values of the column hold no byte 0.
  abbrev pub IsClean : Str × List RowGroup → Type 0
  IsClean file = AllValues IsNulFree column file.1

  between-Answers :
      (start end : Str)
      → IsNulFree start
      → IsNulFree end
      → (fs : Corpus) → All IsClean fs
      → All
          (Answers hasher fst index_dir e column
            (λ s. range_search_set fst s start end)
            (λ v. le_bytes start v && le_bytes v end))
          fs
  between-Answers start end hs he [] h = tt
  between-Answers start end hs he (f ∷ fs) (h, rest) = (
    λ set ix. range_search_set-eq-scan fst set column f.1 ix start end hs he h,
    between-Answers start end hs he fs rest,
  )

  -- For an engine that knows exactly these files, over an index directory in which each of them is
  -- indexed on the column, from a coherent cache, and where neither the bounds nor the values of
  -- the column hold a byte 0: a range search returns, without an error, what a full scan of the
  -- column in every file finds from `start` to `end`, both included, and leaves the cache coherent.
  pub range_search-eq-scan :
      (start end : Str)
      → IsNulFree start
      → IsNulFree end
      → All IsClean files
      → Returns fst index_dir
          (range_search fst index_dir e column start end)
          (ok (scan_corpus (λ v. le_bytes start v && le_bytes v end) column files))
  unfolding range_search
  range_search-eq-scan start end hs he clean =
      let search = λ (s : fst.Keys). range_search_set fst s start end in
      let q = λ (v : Str). le_bytes start v && le_bytes v end in
      rw
        (← search_all-Answers hasher fst index_dir e column files x search q
          (between-Answers start end hs he files clean))
        (search_all-Returns fst index_dir e column search)
