-- ===== src/Query/Ranges.antt =====
-- The bounds of the searches: which keys `value\0rgN` lie between them.
use pdq.Prelude.{
  ℕ, suc, ◌<◌, ◌≡◌, ◌≢◌, refl, sym, ◌∙◌, Bool, true, false, ◌&&◌, ◌||◌, some, List, [], ◌∷◌, ◌++◌,
  append_assoc, append-nil, arith, leb, ◌==◌, if◌then◌else◌, All, length, take, Bool-cases, inl,
  inr,
}
use pdq.Text.{Bytes, Str, str_eq, starts_with, IsNulFree}
use pdq.Text.Order.{lt_bytes, le_bytes, lt_bytes-append}
use pdq.Text.Utf8.{IsScalar, encode, encode_char, chars, decode-encode, lt_bytes-encode_char}
use pdq.KeyFormat.{build_key, position}
use pdq.KeyFormat.RoundTrip.{suffix, suffix-NulFree, build_key-eq}
use pdq.Fst.{in_range}
use pdq.Query.Search.{start_key, end_key, next_char, bump_last, prefix_end_key, value_has_prefix}

-- The keys of an exact search are those that start with the term and a separator.
pub in_range-starts_with :
    (t k : Bytes) → in_range (start_key t) (end_key t) k ≡ starts_with k (start_key t)
in_range-starts_with [] [] = refl
in_range-starts_with [] (b ∷ k) = ground arith
in_range-starts_with (x ∷ t) [] = refl
in_range-starts_with (x ∷ t) (b ∷ k) = ground (arith, in_range-starts_with t k)

pub starts_with-NulFree : (v t : Bytes) → IsNulFree v → starts_with v (start_key t) ≡ false
starts_with-NulFree [] [] h = refl
starts_with-NulFree [] (x ∷ t) h = refl
starts_with-NulFree (b ∷ v) [] (hb, h) = ground arith
starts_with-NulFree (b ∷ v) (x ∷ t) (hb, h) = ground (arith, starts_with-NulFree v t h)

-- The value that an exact search for `t` finds: `t`, or a value that goes on after `t` with a byte 0.
abbrev pub is_exact : Str → Str → Bool
is_exact t v = str_eq v t || starts_with v (start_key t)

starts_with-key :
    (t v s : Bytes) → IsNulFree s → starts_with (v ++ 0 ∷ s) (start_key t) ≡ is_exact t v
starts_with-key [] [] s h = refl
starts_with-key (x ∷ t) [] s h = ground (arith, starts_with-NulFree s t h)
starts_with-key [] (b ∷ v) s h = ground arith
starts_with-key (x ∷ t) (b ∷ v) s h = ground (arith, starts_with-key t v s h)

pub in_range-exact :
    (t v : Str) (g : ℕ) → in_range (start_key t) (end_key t) (build_key v g) ≡ is_exact t v
in_range-exact t v g =
    in_range-starts_with t (build_key v g)
    ∙ rw build_key-eq (starts_with-key t v (suffix g) (suffix-NulFree g))

lt_bytes-start :
    (v a s : Bytes) → IsNulFree v → IsNulFree a → lt_bytes (v ++ 0 ∷ s) (start_key a) ≡ lt_bytes v a
lt_bytes-start [] [] s hv ha = refl
lt_bytes-start [] (x ∷ a) s hv (hx, ha) = ground arith
lt_bytes-start (b ∷ v) [] s (hb, hv) ha = ground arith
lt_bytes-start (b ∷ v) (x ∷ a) s (hb, hv) (hx, ha) = ground (arith, lt_bytes-start v a s hv ha)

lt_bytes-end :
    (v e s : Bytes) → IsNulFree v → IsNulFree e → lt_bytes (v ++ 0 ∷ s) (end_key e) ≡ le_bytes v e
lt_bytes-end [] [] s hv he = refl
lt_bytes-end [] (x ∷ e) s hv (hx, he) = ground arith
lt_bytes-end (b ∷ v) [] s (hb, hv) he = ground arith
lt_bytes-end (b ∷ v) (x ∷ e) s (hb, hv) (hx, he) = ground (arith, lt_bytes-end v e s hv he)

-- Between the bounds of a range search lie the values from `a` to `e`, both included.
pub in_range-between :
    (a e v : Str) (g : ℕ)
    → IsNulFree a
    → IsNulFree e
    → IsNulFree v
    → in_range (start_key a) (end_key e) (build_key v g) ≡ (le_bytes a v && le_bytes v e)
in_range-between a e v g ha he hv =
    rw (build_key-eq, lt_bytes-start v a (suffix g) hv ha, lt_bytes-end v e (suffix g) hv he)

-- The value up to its first byte 0: what `prefix_search_set` looks at.
abbrev pub until_nul : Bytes → Bytes
until_nul [] = []
until_nul (b ∷ v) = let rest = until_nul v in if b == 0 then [] else b ∷ rest

take-position :
    (v s : Bytes)
    → (i : ℕ) × (position 0 (v ++ 0 ∷ s) ≡ some i) × (take i (v ++ 0 ∷ s) ≡ until_nul v)
unfolding position
take-position [] s = (0, refl, refl)
take-position (b ∷ v) s = elim (Bool-cases (b == 0)) [
  | inl nul ↦ (0, rw nul, rw nul)
  | inr other ↦ let (i, e, t) = take-position v s in (suc i, rw (other, e), rw (other, t))
]

starts_with-length :
    (u p : Bytes) → (leb (length p) (length u) && starts_with u p) ≡ starts_with u p
starts_with-length [] [] = refl
starts_with-length [] (x ∷ p) = ground arith
starts_with-length (b ∷ u) [] = ground arith
starts_with-length (b ∷ u) (x ∷ p) = ground (arith, starts_with-length u p)

has_prefix_at_suffix :
    (p v s : Bytes) → value_has_prefix p (v ++ 0 ∷ s) ≡ starts_with (until_nul v) p
unfolding value_has_prefix
has_prefix_at_suffix p v s =
    let (i, e, t) = take-position v s in
    rw (value_has_prefix, e, t) (starts_with-length (until_nul v) p)

pub value_has_prefix-build_key :
    (p v : Str) (g : ℕ) → value_has_prefix p (build_key v g) ≡ starts_with (until_nul v) p
value_has_prefix-build_key p v g = rw build_key-eq (has_prefix_at_suffix p v (suffix g))

pub starts_with-until_nul :
    (v p : Bytes) → IsNulFree p → starts_with (until_nul v) p ≡ starts_with v p
starts_with-until_nul v [] h = ground arith
starts_with-until_nul [] (x ∷ p) h = refl
starts_with-until_nul (b ∷ v) (x ∷ p) (hx, h) = ground (arith, starts_with-until_nul v p h)

-- No value is found to start with a prefix that holds a byte 0.
pub not_starts_with-nul : (v p r : Bytes) → starts_with (until_nul v) (p ++ 0 ∷ r) ≡ false
not_starts_with-nul [] [] r = refl
not_starts_with-nul [] (x ∷ p) r = refl
not_starts_with-nul (b ∷ v) [] r = ground arith
not_starts_with-nul (b ∷ v) (x ∷ p) r = ground (arith, not_starts_with-nul v p r)

bump_last-append : (cs : List ℕ) (c : ℕ) → bump_last (cs ++ c ∷ []) ≡ some (cs ++ next_char c ∷ [])
unfolding bump_last
bump_last-append [] c = refl
bump_last-append (d ∷ []) c = refl
bump_last-append (d ∷ e ∷ cs) c = rw (bump_last-append (e ∷ cs) c)

encode-append : (cs ds : List ℕ) → encode (cs ++ ds) ≡ encode cs ++ encode ds
encode-append [] ds = refl
encode-append (c ∷ cs) ds =
    rw (encode-append cs ds) (sym (append_assoc (encode_char c) (encode cs) (encode ds)))

pub prefix_end_key-encode :
    (cs : List ℕ) (c : ℕ)
    → All IsScalar (cs ++ c ∷ [])
    → prefix_end_key (encode (cs ++ c ∷ [])) ≡ encode (cs ++ next_char c ∷ []) ++ 0 ∷ []
unfolding prefix_end_key
prefix_end_key-encode cs c h =
    rw (prefix_end_key, chars, decode-encode (cs ++ c ∷ []) h, bump_last-append cs c)

next_char-gt : (c : ℕ) → IsScalar c → c ≢ 0x10ffff → (c < next_char c) × (next_char c < 0x110000)
unfolding next_char
next_char-gt c h n = ground arith

-- A text that starts with the prefix is the prefix and a rest.
starts_with-split : (v p : Bytes) → starts_with v p ≡ true → (r : Bytes) × (v ≡ p ++ r)
starts_with-split v [] h = (v, refl)
starts_with-split [] (x ∷ p) h = cc
starts_with-split (b ∷ v) (x ∷ p) h =
    let (r, e) = starts_with-split v p (ground arith) in (r, ground arith)

not_lt-separator : (r s : Bytes) → lt_bytes (r ++ 0 ∷ s) (0 ∷ []) ≡ false
not_lt-separator [] s = refl
not_lt-separator (b ∷ r) s = ground arith

-- The key of a value that starts with the prefix lies between the bounds of the prefix search.
prefix_in_range :
    (cs : List ℕ) (c : ℕ) (r s : Bytes)
    → IsScalar c
    → c ≢ 0x10ffff
    → in_range
        (start_key (encode (cs ++ c ∷ [])))
        (encode (cs ++ next_char c ∷ []) ++ 0 ∷ [])
        ((encode (cs ++ c ∷ []) ++ r) ++ 0 ∷ s)
      ≡ true
prefix_in_range cs c r s h n =
    let (up, below) = next_char-gt c h n in
    rw
      (
        append_assoc (encode (cs ++ c ∷ [])) r (0 ∷ s),
        lt_bytes-append (encode (cs ++ c ∷ [])) (r ++ 0 ∷ s) (0 ∷ []),
        not_lt-separator r s,
        encode-append cs (c ∷ []),
        encode-append cs (next_char c ∷ []),
        append_assoc (encode cs) (encode_char c ++ []) (r ++ 0 ∷ s),
        append_assoc (encode cs) (encode_char (next_char c) ++ []) (0 ∷ []),
        lt_bytes-append (encode cs),
        append-nil,
        append-nil,
      )
      (lt_bytes-encode_char c (next_char c) (r ++ 0 ∷ s) (0 ∷ []) up below)

pub in_range-prefix :
    (cs : List ℕ) (c : ℕ) (v : Str) (g : ℕ)
    → All IsScalar (cs ++ c ∷ [])
    → IsScalar c
    → c ≢ 0x10ffff
    → starts_with v (encode (cs ++ c ∷ [])) ≡ true
    → in_range
        (start_key (encode (cs ++ c ∷ [])))
        (prefix_end_key (encode (cs ++ c ∷ [])))
        (build_key v g)
      ≡ true
in_range-prefix cs c v g hs h n st =
    let (r, e) = starts_with-split v (encode (cs ++ c ∷ [])) st in
    rw (prefix_end_key-encode cs c hs, build_key-eq, e) (prefix_in_range cs c r (suffix g) h n)
