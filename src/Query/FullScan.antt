-- ===== src/Query/FullScan.antt =====
-- The searches of query.rs against a full scan of the Parquet file that the index was built from.
use pdq.Prelude.{
  ℕ, ◌≤◌, ◌≡◌, ◌≢◌, refl, ap, ◌∙◌, Bool, false, not, ◌&&◌, some, List, [], ◌∷◌, ◌++◌, arith, All,
  any, filter, length, is_empty,
}
use mathlib.Core.Path.{subst}
use pdq.Prelude.Result.{ok}
use pdq.Text.{Bytes, Str, str_eq, starts_with, IsNulFree}
use pdq.Text.Order.{le_bytes}
use pdq.Text.Utf8.{IsScalar, encode}
use pdq.Text.Decimal.{word}
use pdq.KeyFormat.{build_key}
use pdq.Fst.{Fst, in_range}
use pdq.Parquet.{RowGroup, scan_groups}
use pdq.Parquet.Laws.{
  any_value, AllValues, scan_groups-eq, AllValues-any, any_value-eq, not-is_empty-scan_groups,
  scan_groups-false,
}
use pdq.Index.Keys.{index_keys}
use pdq.Index.Keys.Laws.{Holds, index_keys-Holds, index_keys-AllReadable}
use pdq.Query.Search.{
  start_key, end_key, prefix_end_key, value_has_prefix, search_set, set_has_term, prefix_search_set,
  range_search_set, next_char,
}
use pdq.Query.Collect.{collect_prefix-eq, collect-eq-scan_groups, filter-filter}
use pdq.Query.Ranges.{
  is_exact, in_range-exact, starts_with-NulFree, in_range-between, until_nul,
  value_has_prefix-build_key, starts_with-until_nul, not_starts_with-nul, in_range-prefix,
  prefix_end_key-encode,
}

-- `set` is what opening the file gives that `index_file` builds for the column from these row groups.
pub record IsIndexOf (fst : Fst) (set : fst.Keys) (column : Str) (gs : List RowGroup) : Type 0 where
  pub few : length gs ≤ word
  pub keys : List Bytes
  pub image : fst.Image
  pub collected : index_keys column gs ≡ ok keys
  pub built : fst.build keys ≡ some image
  pub opened : fst.open_image image ≡ some set

not-is_empty-filter : (p : Bytes → Bool) (ks : List Bytes) → not (is_empty (filter p ks)) ≡ any p ks
not-is_empty-filter p [] = refl
not-is_empty-filter p (k ∷ ks) = ground (arith, not-is_empty-filter p ks)

empty_range : (lo k : Bytes) → in_range lo lo k ≡ false
empty_range lo k = ground arith

All-last : (cs : List ℕ) (c : ℕ) → All IsScalar (cs ++ c ∷ []) → IsScalar c
All-last [] c (h, _) = h
All-last (d ∷ cs) c (_, h) = All-last cs c h

module _ (fst : Fst) (set : fst.Keys) (column : Str) (gs : List RowGroup)
    (ix : IsIndexOf fst set column gs) where
  held : Holds ix.keys (λ q. any_value (λ v h. q (build_key v h)) column 0 gs)
  held =
      let (keys, done, h) =
        index_keys-Holds column gs ix.few (index_keys-AllReadable column gs ix.collected) in
      subst (λ k. Holds k (λ q. any_value (λ v h. q (build_key v h)) column 0 gs))
        (cc (done, ix.collected)) h

  stream-filter : (lo hi : Bytes) → fst.stream set lo hi ≡ filter (in_range lo hi) ix.keys
  stream-filter lo hi =
      fst.stream-build ix.keys ix.image set lo hi held.ascending ix.built ix.opened

  -- In an index that the indexer builds from at most 2 ^ 64 row groups, an exact search returns,
  -- ascending and without an error, the row groups that a full scan of the column finds to hold
  -- the term or a value that begins with the term and a byte 0.
  pub search_set-eq-scan :
      (term : Str) → search_set fst set term ≡ ok (scan_groups (is_exact term) column 0 gs)
  unfolding search_set
  search_set-eq-scan term = rw (stream-filter (start_key term) (end_key term)) (
      collect-eq-scan_groups (λ v. Unit {0}) (in_range (start_key term) (end_key term))
        (is_exact term) column gs ix.keys held ix.few (AllValues-any column gs)
        (λ v h p lt. in_range-exact term v h))

  -- In an index that the indexer builds from at most 2 ^ 64 row groups: where no value of the
  -- column holds a byte 0, an exact search returns exactly the row groups in which a full scan of
  -- the column finds the term.
  pub search_set-IsExact :
      (term : Str)
      → AllValues IsNulFree column gs
      → search_set fst set term ≡ ok (scan_groups (λ v. str_eq v term) column 0 gs)
  search_set-IsExact term clean =
      search_set-eq-scan term
      ∙ ap ok (
          scan_groups-eq IsNulFree (is_exact term) (λ v. str_eq v term) column 0 gs
            (λ v h. rw (starts_with-NulFree v term h) (ground arith)) clean)

  -- In an index that the indexer builds from at most 2 ^ 64 row groups, `set_has_term` is true
  -- exactly if a full scan of the column finds the term, or a value that begins with the term and
  -- a byte 0, in some row group.
  pub set_has_term-eq-scan :
      (term : Str)
      → set_has_term fst set term ≡ not (is_empty (scan_groups (is_exact term) column 0 gs))
  unfolding set_has_term
  set_has_term-eq-scan term =
      rw
        (
          stream-filter (start_key term) (end_key term),
          not-is_empty-filter (in_range (start_key term) (end_key term)) ix.keys,
          held.any_key (in_range (start_key term) (end_key term)),
          not-is_empty-scan_groups (is_exact term) column 0 gs,
        )
        (any_value-eq (λ v. Unit {0})
          (λ v h. in_range (start_key term) (end_key term) (build_key v h)) (λ v h. is_exact term v)
          column 0 word gs (λ v h p lt. in_range-exact term v h) (AllValues-any column gs)
          (omega (arith, ix.few)))

  -- In an index that the indexer builds from at most 2 ^ 64 row groups: where neither the values
  -- of the column nor the bounds hold a byte 0, a range search returns exactly the row groups
  -- with a value from `start` to `end`, both included, in the order of bytes.
  pub range_search_set-eq-scan :
      (start end : Str)
      → IsNulFree start
      → IsNulFree end
      → AllValues IsNulFree column gs
      → range_search_set fst set start end
        ≡ ok (scan_groups (λ v. le_bytes start v && le_bytes v end) column 0 gs)
  unfolding range_search_set
  range_search_set-eq-scan start end hs he clean =
      rw (stream-filter (start_key start) (end_key end)) (
        collect-eq-scan_groups IsNulFree (in_range (start_key start) (end_key end))
          (λ v. le_bytes start v && le_bytes v end) column gs ix.keys held ix.few clean
          (λ v h p lt. in_range-between start end v h hs he p))

  -- What a prefix search returns, by a test on the values that its own tests amount to.
  prefix_search_set-by :
      (prefix : Str) (q : Str → Bool)
      → ((v : Str) (h : ℕ)
          → (in_range (start_key prefix) (prefix_end_key prefix) (build_key v h)
              && starts_with (until_nul v) prefix)
            ≡ q v)
      → prefix_search_set fst set prefix ≡ ok (scan_groups q column 0 gs)
  unfolding prefix_search_set
  prefix_search_set-by prefix q agree =
      let lo = start_key prefix in
      let hi = prefix_end_key prefix in
      rw
        (
          stream-filter lo hi,
          collect_prefix-eq prefix (filter (in_range lo hi) ix.keys) [],
          filter-filter (value_has_prefix prefix) (in_range lo hi) ix.keys,
        )
        (collect-eq-scan_groups (λ v. Unit {0}) (λ k. in_range lo hi k && value_has_prefix prefix k)
          q column gs ix.keys held ix.few (AllValues-any column gs)
          (λ v h p lt. rw (value_has_prefix-build_key prefix v h) (agree v h)))

  -- In an index that the indexer builds from at most 2 ^ 64 row groups, and for a prefix of one
  -- or more characters, with no byte 0 in it and not ending in U+10FFFF, a prefix search returns
  -- exactly the row groups with a value that starts with the prefix.
  pub prefix_search_set-eq-scan :
      (cs : List ℕ) (c : ℕ)
      → All IsScalar (cs ++ c ∷ [])
      → c ≢ 0x10ffff
      → IsNulFree (encode (cs ++ c ∷ []))
      → prefix_search_set fst set (encode (cs ++ c ∷ []))
        ≡ ok (scan_groups (λ v. starts_with v (encode (cs ++ c ∷ []))) column 0 gs)
  prefix_search_set-eq-scan cs c valid below clean =
      let prefix = encode (cs ++ c ∷ []) in
      prefix_search_set-by prefix (λ v. starts_with v prefix)
        (λ v h.
          rw (starts_with-until_nul v prefix clean)
            (ground (arith, in_range-prefix cs c v h valid (All-last cs c valid) below)))

  -- In an index that the indexer builds from at most 2 ^ 64 row groups, a prefix search whose
  -- prefix holds a byte 0 returns nothing, whatever the values.
  pub prefix_search_set-nul : (p r : Str) → prefix_search_set fst set (p ++ 0 ∷ r) ≡ ok []
  prefix_search_set-nul p r =
      prefix_search_set-by (p ++ 0 ∷ r) (λ v. false)
        (λ v h. rw (not_starts_with-nul v p r) (ground arith))
      ∙ ap ok (scan_groups-false column 0 gs)

  -- In an index that the indexer builds from at most 2 ^ 64 row groups, the empty prefix, which
  -- every value starts with, finds only the row groups with a value that is empty or begins with
  -- a byte 0.
  pub prefix_search_set-empty :
      prefix_search_set fst set [] ≡ ok (scan_groups (is_exact []) column 0 gs)
  prefix_search_set-empty =
      prefix_search_set-by [] (is_exact [])
        (λ v h. unfold prefix_end_key in ground (arith, in_range-exact [] v h))

  -- In an index that the indexer builds from at most 2 ^ 64 row groups, a prefix that ends in
  -- U+10FFFF finds nothing, whatever the values.
  pub prefix_search_set-max :
      (cs : List ℕ)
      → All IsScalar (cs ++ 0x10ffff ∷ [])
      → prefix_search_set fst set (encode (cs ++ 0x10ffff ∷ [])) ≡ ok []
  prefix_search_set-max cs valid =
      let prefix = encode (cs ++ 0x10ffff ∷ []) in
      prefix_search_set-by prefix (λ v. false)
        (λ v h.
          rw (prefix_end_key-encode cs 0x10ffff valid)
            (unfold next_char in ground (arith, empty_range (start_key prefix) (build_key v h))))
      ∙ ap ok (scan_groups-false column 0 gs)
