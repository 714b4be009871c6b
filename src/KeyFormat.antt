-- ===== src/KeyFormat.antt =====
-- The keys of an index, `value\0rgN`: the constants of lib.rs (`key_format`), how index.rs writes a
-- key and how query.rs reads the row group back from it.
pub mod RoundTrip
use mathlib.Core.Option
use pdq.Prelude.{
  ℕ, suc, ◌+◌, Bool, Option, none, some, [], ◌∷◌, ◌++◌, ◌==◌, if◌then◌else◌, drop, length,
}
use pdq.Prelude.Result.{Result, ok, err, ◌>>=◌}
use pdq.Text.{Bytes, Str, codes, starts_with}
use pdq.Text.Decimal.{decimal, parse_usize}
use pdq.Text.Utf8.{from_utf8}

abbrev pub value_rg_separator : ℕ
value_rg_separator = 0

abbrev pub range_upper_bound_marker : ℕ
range_upper_bound_marker = 1

abbrev pub row_group_prefix : Str
row_group_prefix = codes "rg"

abbrev pub max_unicode_char : ℕ
max_unicode_char = 0x10ffff

-- `append_usize`
unfoldable pub append_usize : Str → ℕ → Str
append_usize buffer value = buffer ++ decimal value

-- The key buffer of `index_file`.
unfoldable pub build_key : Str → ℕ → Str
unfolding append_usize
build_key value row_group_idx =
    append_usize (value ++ value_rg_separator ∷ row_group_prefix) row_group_idx

-- `iter().position(|&b| b == sep)`
unfoldable pub position : ℕ → Bytes → Option ℕ
position sep [] = none
position sep (b ∷ s) = if b == sep then some 0 else Option.map suc (position sep s)

-- `iter().rposition(|&b| b == sep)`
unfoldable pub rposition : ℕ → Bytes → Option ℕ
rposition sep [] = none
rposition sep (b ∷ s) = elim (rposition sep s) [
  | none ↦ if b == sep then some 0 else none
  | some i ↦ some (suc i)
]

-- What follows the separator: a number behind `rg`, or no row group.
unfoldable pub parse_row_group_bytes : Bytes → Result (Option ℕ)
parse_row_group_bytes row_group_bytes =
    if starts_with row_group_bytes row_group_prefix
    then (do
      num_str ← from_utf8 (drop (length row_group_prefix) row_group_bytes)
      n ← parse_usize num_str
      ok (some n))
    else ok none

unfoldable pub parse_row_group_from_key : Bytes → Result (Option ℕ)
unfolding rposition parse_row_group_bytes
parse_row_group_from_key key = elim (rposition value_rg_separator key) [
  | none ↦ ok none
  | some null_pos ↦ parse_row_group_bytes (drop (null_pos + 1) key)
]
