-- ===== src/Examples/Search.antt =====
-- Searches within one index.
use pdq.Prelude.{◌≡◌, refl, ◌&&◌, some, [], ◌∷◌, ◌++◌, arith}
use pdq.Prelude.Result.{ok}
use pdq.Text.{codes, starts_with}
use pdq.Text.Order.{le_bytes}
use pdq.Text.Utf8.{encode, encode_char, from_utf8}
use pdq.Text.Decimal.{parse_usize}
use pdq.RowSet.{sort_unstable}
use pdq.KeyFormat.{build_key, parse_row_group_from_key}
use pdq.KeyFormat.RoundTrip.{parse-build_key}
use pdq.Fst.{list_fst}
use pdq.Parquet.{scan_groups}
use pdq.Query.Search.{search_set, prefix_search_set, range_search_set}
use pdq.Query.Ranges.{is_exact}
use pdq.Query.FullScan.{
  search_set-eq-scan, range_search_set-eq-scan, prefix_search_set-eq-scan, prefix_search_set-nul,
  prefix_search_set-empty, prefix_search_set-max,
}
use pdq.Examples.Data.{ip, two_groups, two_groups_keys, two_groups-IsIndexOf}

parse-build_key_example :
    parse_row_group_from_key (build_key (codes "a" ++ 0 ∷ codes "b") 17) ≡ ok (some 17)
parse-build_key_example = parse-build_key (codes "a" ++ 0 ∷ codes "b") 17 (omega arith)

search_b : search_set list_fst two_groups_keys (codes "b") ≡ ok (0 ∷ 1 ∷ [])
unfolding search_set parse_row_group_from_key from_utf8 parse_usize sort_unstable
search_b = refl

search_set-eq-scan_example :
    search_set list_fst two_groups_keys (codes "b")
    ≡ ok (scan_groups (is_exact (codes "b")) ip 0 two_groups)
search_set-eq-scan_example =
    search_set-eq-scan list_fst two_groups_keys ip two_groups two_groups-IsIndexOf (codes "b")

range_search_set-eq-scan_example :
    range_search_set list_fst two_groups_keys (codes "ab") (codes "b")
    ≡ ok (scan_groups (λ v. le_bytes (codes "ab") v && le_bytes v (codes "b")) ip 0 two_groups)
range_search_set-eq-scan_example =
    range_search_set-eq-scan list_fst two_groups_keys ip two_groups two_groups-IsIndexOf
      (codes "ab") (codes "b") (omega arith) (omega arith) (omega arith)

prefix_search_set-eq-scan_example :
    prefix_search_set list_fst two_groups_keys (encode (b'a' ∷ []))
    ≡ ok (scan_groups (λ v. starts_with v (encode (b'a' ∷ []))) ip 0 two_groups)
unfolding encode_char
prefix_search_set-eq-scan_example =
    prefix_search_set-eq-scan list_fst two_groups_keys ip two_groups two_groups-IsIndexOf [] b'a'
      (refl, tt) (omega arith) (omega arith)

prefix_search_set-nul_example :
    prefix_search_set list_fst two_groups_keys (codes "a" ++ 0 ∷ codes "b") ≡ ok []
prefix_search_set-nul_example =
    prefix_search_set-nul list_fst two_groups_keys ip two_groups two_groups-IsIndexOf (codes "a")
      (codes "b")

prefix_search_set-empty_example :
    prefix_search_set list_fst two_groups_keys [] ≡ ok (scan_groups (is_exact []) ip 0 two_groups)
prefix_search_set-empty_example =
    prefix_search_set-empty list_fst two_groups_keys ip two_groups two_groups-IsIndexOf

prefix_search_set-max_example :
    prefix_search_set list_fst two_groups_keys (encode (b'a' ∷ 0x10ffff ∷ [])) ≡ ok []
prefix_search_set-max_example =
    prefix_search_set-max list_fst two_groups_keys ip two_groups two_groups-IsIndexOf (b'a' ∷ [])
      (refl, (refl, tt))
