-- ===== src/Query/Search.antt =====
-- The searches of query.rs within one FST: `search_set`, `set_has_term`, `prefix_search_set` and
-- `range_search_set`. A loop over a stream is a recursion on the keys that the stream gives.
use pdq.Prelude.{
  ℕ, ◌+◌, Bool, false, ◌&&◌, Option, none, some, List, [], ◌∷◌, ◌++◌, leb, if◌then◌else◌, length,
  take, is_empty, not,
}
use pdq.Prelude.Result.{Result, ok, ◌>>=◌}
use pdq.Text.{Bytes, Str, starts_with}
use pdq.Text.Utf8.{is_scalar, encode, chars}
use pdq.KeyFormat.{
  value_rg_separator, range_upper_bound_marker, max_unicode_char, position,
  parse_row_group_from_key,
}
use pdq.RowSet.{hash_insert, sort_unstable}
use pdq.Fst.{Fst}

-- `if let Some(row_group_id) = … { row_groups.insert(row_group_id); }`
unfoldable pub insert_group : Option ℕ → List ℕ → List ℕ
unfolding hash_insert
insert_group none row_groups = row_groups
insert_group (some g) row_groups = hash_insert g row_groups

-- The loop of `search_set` and of `range_search_set`.
unfoldable pub collect : List Bytes → List ℕ → Result (List ℕ)
unfolding insert_group
collect [] row_groups = ok row_groups
collect (key ∷ keys) row_groups = do
  g ← parse_row_group_from_key key
  collect keys (insert_group g row_groups)

-- The bytes before the first separator start with the prefix.
unfoldable pub value_has_prefix : Str → Bytes → Bool
value_has_prefix prefix key = elim (position value_rg_separator key) [
  | none ↦ false
  | some null_pos ↦
      let value_bytes = take null_pos key in
      leb (length prefix) (length value_bytes) && starts_with value_bytes prefix
]

-- The loop of `prefix_search_set`.
unfoldable pub collect_prefix : Str → List Bytes → List ℕ → Result (List ℕ)
unfolding insert_group value_has_prefix
collect_prefix prefix [] row_groups = ok row_groups
collect_prefix prefix (key ∷ keys) row_groups = do
  g ← if value_has_prefix prefix key then parse_row_group_from_key key else ok none
  collect_prefix prefix keys (insert_group g row_groups)

abbrev pub start_key : Str → Str
start_key s = s ++ value_rg_separator ∷ []

abbrev pub end_key : Str → Str
end_key s = s ++ range_upper_bound_marker ∷ []

-- `char::from_u32(last_char as u32 + 1).unwrap_or(MAX_UNICODE_CHAR)`
unfoldable pub next_char : ℕ → ℕ
next_char last_char = if is_scalar (last_char + 1) then last_char + 1 else max_unicode_char

-- The prefix with its last character replaced by the next, or nothing if it has none: `pop`, `push`.
unfoldable pub bump_last : List ℕ → Option (List ℕ)
unfolding next_char
bump_last [] = none
bump_last (c ∷ []) = some (next_char c ∷ [])
bump_last (c ∷ d ∷ cs) = elim (bump_last (d ∷ cs)) [ none ↦ none | some ds ↦ some (c ∷ ds) ]

unfoldable pub prefix_end_key : Str → Str
unfolding bump_last chars
prefix_end_key prefix = elim (bump_last (chars prefix)) [
  | none ↦ range_upper_bound_marker ∷ []
  | some end_prefix ↦ encode end_prefix ++ value_rg_separator ∷ []
]

module _ (fst : Fst) where
  unfoldable pub search_set : fst.Keys → Str → Result (List ℕ)
  unfolding collect
  search_set set term = do
    row_groups ← collect (fst.stream set (start_key term) (end_key term)) []
    ok (sort_unstable row_groups)

  -- `stream.next().is_some()`
  unfoldable pub set_has_term : fst.Keys → Str → Bool
  set_has_term set term = not (is_empty (fst.stream set (start_key term) (end_key term)))

  unfoldable pub prefix_search_set : fst.Keys → Str → Result (List ℕ)
  unfolding collect_prefix prefix_end_key
  prefix_search_set set prefix = do
    row_groups ←
        collect_prefix prefix (fst.stream set (start_key prefix) (prefix_end_key prefix)) []
    ok (sort_unstable row_groups)

  unfoldable pub range_search_set : fst.Keys → Str → Str → Result (List ℕ)
  unfolding collect
  range_search_set set start end = do
    row_groups ← collect (fst.stream set (start_key start) (end_key end)) []
    ok (sort_unstable row_groups)
