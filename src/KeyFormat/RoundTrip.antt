-- ===== src/KeyFormat/RoundTrip.antt =====
-- A key is read back as the row group that it was written for.
use pdq.Prelude.{
  ℕ, suc, ◌+◌, ◌≤◌, ◌<◌, ◌≡◌, refl, none, some, [], ◌∷◌, ◌++◌, append_assoc, arith, All, drop,
  length,
}
use pdq.Prelude.Result.{ok}
use pdq.Text.{Bytes, Str, IsNulFree}
use pdq.Text.Decimal.{word, decimal, decimal-IsDigit, parse_usize-decimal}
use pdq.Text.Utf8.{from_utf8-ascii}
use pdq.KeyFormat.{
  value_rg_separator, row_group_prefix, build_key, position, rposition, parse_row_group_bytes,
  parse_row_group_from_key,
}

pub rposition-NulFree : (s : Bytes) → IsNulFree s → rposition 0 s ≡ none
unfolding rposition
rposition-NulFree [] h = refl
rposition-NulFree (b ∷ s) (hb, hs) = rw (rposition-NulFree s hs) (ground arith)

-- The last separator is the one that the key's suffix begins with.
pub rposition-append : (v r : Bytes) → IsNulFree r → rposition 0 (v ++ 0 ∷ r) ≡ some (length v)
unfolding rposition
rposition-append [] r h = rw (rposition-NulFree r h)
rposition-append (b ∷ v) r h = rw (rposition-append v r h)

pub position-append : (v r : Bytes) → IsNulFree v → position 0 (v ++ 0 ∷ r) ≡ some (length v)
unfolding position
position-append [] r h = refl
position-append (b ∷ v) r (hb, h) = rw (position-append v r h) (ground arith)

drop_past : (v r : Bytes) (b : ℕ) → drop (length v + 1) (v ++ b ∷ r) ≡ r
drop_past [] r b = ground arith
drop_past (x ∷ v) r b =
    let e : suc (length v) + 1 ≡ suc (length v + 1) = omega arith in rw e (drop_past v r b)

digits-NulFree : (s : Str) → All (λ c. (b'0' ≤ c) × (c ≤ b'9')) s → IsNulFree s
digits-NulFree [] h = tt
digits-NulFree (c ∷ s) (hc, h) = (omega arith, digits-NulFree s h)

digits-ascii : (s : Str) → All (λ c. (b'0' ≤ c) × (c ≤ b'9')) s → All (λ b. b < 0x80) s
digits-ascii [] h = tt
digits-ascii (c ∷ s) (hc, h) = (omega arith, digits-ascii s h)

-- The part of a key behind the separator.
abbrev pub suffix : ℕ → Bytes
suffix g = row_group_prefix ++ decimal g

pub suffix-NulFree : (g : ℕ) → IsNulFree (suffix g)
suffix-NulFree g = (omega arith, (omega arith, digits-NulFree (decimal g) (decimal-IsDigit g)))

pub build_key-eq : (v : Str) (g : ℕ) → build_key v g ≡ v ++ 0 ∷ suffix g
unfolding build_key
build_key-eq v g = append_assoc v (value_rg_separator ∷ row_group_prefix) (decimal g)

parse-suffix : (g : ℕ) → g < word → parse_row_group_bytes (suffix g) ≡ ok (some g)
unfolding parse_row_group_bytes
parse-suffix g fits =
    rw
      (from_utf8-ascii (decimal g) (digits-ascii _ (decimal-IsDigit g)), parse_usize-decimal g fits)

parse_at_suffix :
    (v : Bytes) (g : ℕ) → g < word → parse_row_group_from_key (v ++ 0 ∷ suffix g) ≡ ok (some g)
unfolding parse_row_group_from_key
parse_at_suffix v g fits =
    rw
      (
        parse_row_group_from_key,
        rposition-append v (suffix g) (suffix-NulFree g),
        drop_past v (suffix g) 0,
      )
      (parse-suffix g fits)

-- Parsing the key that was built for a value and a row group below 2 ^ 64 gives the row group
-- back, whatever bytes the value has.
pub parse-build_key :
    (v : Str) (g : ℕ) → g < word → parse_row_group_from_key (build_key v g) ≡ ok (some g)
parse-build_key v g fits = rw build_key-eq (parse_at_suffix v g fits)
