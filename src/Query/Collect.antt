-- ===== src/Query/Collect.antt =====
-- The loops over a stream: over keys that the indexer wrote they do not fail, and what they collect
-- is determined by the keys that the stream gives.
use pdq.Prelude.{
  ℕ, ◌<◌, ◌≡◌, refl, Bool, false, ◌&&◌, ◌||◌, Option, some, List, [], ◌∷◌, arith, ◌==◌, All, any,
  filter, Bool-cases, inl, inr, ap, sym, length, ◌≤◌,
}
use mathlib.Core.Path.{fun_ext, ◌≡⟨◌⟩◌, ◌∎}
use pdq.Prelude.Result.{Result, ok, ◌>>=◌}
use pdq.Text.{Bytes, Str}
use pdq.Text.Decimal.{word}
use pdq.KeyFormat.{build_key, parse_row_group_from_key}
use pdq.KeyFormat.RoundTrip.{parse-build_key}
use pdq.RowSet.{contains, IsDistinct, sort_unstable}
use pdq.RowSet.Laws.{
  contains-hash_insert, hash_insert-IsDistinct, contains-sort_unstable, sort_unstable-IsAscending,
  IsAscending-eq,
}
use pdq.Parquet.{RowGroup, scan_groups}
use pdq.Parquet.Laws.{
  any_value, AllValues, any_value-eq, scan_groups-IsAscending, contains-scan_groups,
}
use pdq.Index.Keys.Laws.{IsKey, Holds}
use pdq.Query.Search.{insert_group, collect, collect_prefix, value_has_prefix}

-- The key stands for row group `g`.
pub is_group : ℕ → Result (Option ℕ) → Bool
is_group g (ok (some h)) = h == g
is_group g _ = false

abbrev pub key_group : ℕ → Bytes → Bool
key_group g key = is_group g (parse_row_group_from_key key)

pub key_group-build_key : (v : Str) (h g : ℕ) → h < word → key_group g (build_key v h) ≡ (h == g)
unfolding is_group
key_group-build_key v h g fits = rw (parse-build_key v h fits)

-- What a loop returns: a set that holds row group `g` exactly if `found g`.
pub record Collected (r : Result (List ℕ)) (found : ℕ → Bool) : Type 0 where
  pub row_groups : List ℕ
  pub returned : r ≡ ok row_groups
  pub distinct : IsDistinct row_groups
  pub members : (g : ℕ) → contains g row_groups ≡ found g

collect-Collected :
    (keys : List Bytes) (acc : List ℕ)
    → All IsKey keys
    → IsDistinct acc
    → Collected (collect keys acc) (λ g. any (key_group g) keys || contains g acc)
unfolding collect
collect-Collected [] acc wf d = record {
  row_groups = acc;
  returned = refl;
  distinct = d;
  members = λ g. refl;
}
collect-Collected (k ∷ ks) acc ((v, h, fits, e), wf) d =
    let acc' = insert_group (some h) acc in
    let rest = collect-Collected ks acc' wf (hash_insert-IsDistinct h acc d) in
    record {
      row_groups = rest.row_groups;
      returned = rw (e, parse-build_key v h fits) rest.returned;
      distinct = rest.distinct;
      members = λ g.
          rw (rest.members g, contains-hash_insert g h acc, e, key_group-build_key v h g fits)
            (ground arith);
    }

-- The loop of the prefix search is the other loop over the keys that pass its test.
pub collect_prefix-eq :
    (prefix : Str) (keys : List Bytes) (acc : List ℕ)
    → collect_prefix prefix keys acc ≡ collect (filter (value_has_prefix prefix) keys) acc
unfolding collect_prefix collect
collect_prefix-eq prefix [] acc = refl
collect_prefix-eq prefix (k ∷ ks) acc =
    let m = parse_row_group_from_key k in
    elim (Bool-cases (value_has_prefix prefix k)) [
      | inl fits ↦
          rw fits
            (ap (λ f. m >>= f) (fun_ext λ g. collect_prefix-eq prefix ks (insert_group g acc)))
      | inr other ↦ rw other (collect_prefix-eq prefix ks acc)
    ]

All-filter {ℓ} :
    (P : Bytes → Type ℓ) (p : Bytes → Bool) (keys : List Bytes) → All P keys → All P (filter p keys)
All-filter P p [] h = tt
All-filter P p (k ∷ ks) (hk, h) = elim (Bool-cases (p k)) [
  | inl in' ↦ rw in' (hk, All-filter P p ks h)
  | inr out ↦ rw out (All-filter P p ks h)
]

any-filter :
    (q p : Bytes → Bool) (keys : List Bytes) → any q (filter p keys) ≡ any (λ k. p k && q k) keys
any-filter q p [] = refl
any-filter q p (k ∷ ks) = ground (arith, any-filter q p ks)

-- The loop over the keys of an index that pass a test, and the sort after it, give the row groups
-- of a full scan, if the test tells of a key what `q` tells of the value in it.
pub collect-eq-scan_groups {ℓ} :
    (P : Str → Type ℓ) (test : Bytes → Bool) (q : Str → Bool) (column : Str) (gs : List RowGroup)
    (keys : List Bytes)
    → Holds keys (λ r. any_value (λ v h. r (build_key v h)) column 0 gs)
    → length gs ≤ word
    → AllValues P column gs
    → ((v : Str) (h : ℕ) → P v → h < word → test (build_key v h) ≡ q v)
    → (collect (filter test keys) [] >>= λ s. ok (sort_unstable s)) ≡ ok (scan_groups q column 0 gs)
collect-eq-scan_groups P test q column gs keys held fits vals agree =
    let c =
      collect-Collected (filter test keys) [] (All-filter IsKey test keys held.well_formed) tt in
    rw c.returned (
      ap ok (
        IsAscending-eq (sort_unstable c.row_groups) (scan_groups q column 0 gs)
          (sort_unstable-IsAscending c.row_groups c.distinct)
          (scan_groups-IsAscending q column 0 gs)
          λ g.
            contains g (sort_unstable c.row_groups)
            ≡⟨ contains-sort_unstable g c.row_groups ⟩ contains g c.row_groups
            ≡⟨ c.members g ⟩ (any (key_group g) (filter test keys) || false)
            ≡⟨ (rw (any-filter (key_group g) test keys) (ground arith)) ⟩
              any (λ k. test k && key_group g k) keys
            ≡⟨ held.any_key (λ k. test k && key_group g k) ⟩
              any_value (λ v h. test (build_key v h) && key_group g (build_key v h)) column 0 gs
            ≡⟨ any_value-eq P (λ v h. test (build_key v h) && key_group g (build_key v h))
                (λ v h. q v && h == g) column 0 word gs
                (λ v h p lt. rw (agree v h p lt, key_group-build_key v h g lt)) vals (omega arith) ⟩
              any_value (λ v h. q v && h == g) column 0 gs
            ≡⟨ sym (contains-scan_groups q column 0 gs g) ⟩
              contains g (scan_groups q column 0 gs) ∎))

pub filter-filter :
    (p q : Bytes → Bool) (keys : List Bytes)
    → filter p (filter q keys) ≡ filter (λ k. q k && p k) keys
filter-filter p q [] = refl
filter-filter p q (k ∷ ks) = ground (arith, filter-filter p q ks)
