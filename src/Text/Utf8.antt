-- ===== src/Text/Utf8.antt =====
-- UTF-8: characters as scalar values, `char::encode_utf8`, `str::chars` and `str::from_utf8`.
use pdq.Prelude.{
  ℕ, ◌+◌, ◌-◌, ◌*◌, ◌/◌, ◌%◌, ◌<◌, ◌≡◌, refl, Bool, true, ◌&&◌, ◌||◌, Option, none, some, List, [],
  ◌∷◌, ◌++◌, arith, ltb, ◌==◌, if◌then◌else◌, All,
}
use pdq.Prelude.Result.{Result, ok, err, bad_utf8}
use pdq.Text.{Bytes, Str}
use pdq.Text.Order.{lt_bytes}

-- `char::from_u32(n).is_some()`: a code point that is no surrogate.
abbrev pub is_scalar : ℕ → Bool
is_scalar n = ltb n 0xd800 || ltb 0xdfff n && ltb n 0x110000

abbrev pub IsScalar : ℕ → Type 0
IsScalar n = is_scalar n ≡ true

-- `String::push`
unfoldable pub encode_char : ℕ → Bytes
encode_char c =
    if ltb c 0x80
    then c ∷ []
    else if ltb c 0x800
    then (0xc0 + c / 64) ∷ (0x80 + c % 64) ∷ []
    else if ltb c 0x10000
    then (0xe0 + c / 4096) ∷ (0x80 + c / 64 % 64) ∷ (0x80 + c % 64) ∷ []
    else (0xf0 + c / 262144) ∷ (0x80 + c / 4096 % 64) ∷ (0x80 + c / 64 % 64) ∷ (0x80 + c % 64) ∷ []

abbrev pub encode : List ℕ → Bytes
encode [] = []
encode (c ∷ cs) = encode_char c ++ encode cs

-- What the decoder waits for: a first byte, or `need` more bytes of a character whose bits so far
-- are `bits`, the next of them from `lo` to `hi`.
pub data Wait : Type 0 where
  first : Wait
  more : ℕ → ℕ → ℕ → ℕ → Wait

-- One byte: the character that it completes, if it does, and the state after it.
step : Wait → ℕ → Option (Option ℕ × Wait)
step first b =
    if ltb b 0x80
    then some (some b, first)
    else if ltb b 0xc2
    then none
    else if ltb b 0xe0
    then some (none, more 1 (b - 0xc0) 0x80 0xbf)
    else if ltb b 0xf0
    then some (
      none,
      more 2 (b - 0xe0) (if b == 0xe0 then 0xa0 else 0x80) (if b == 0xed then 0x9f else 0xbf),
    )
    else if ltb b 0xf5
    then some (
      none,
      more 3 (b - 0xf0) (if b == 0xf0 then 0x90 else 0x80) (if b == 0xf4 then 0x8f else 0xbf),
    )
    else none
step (more need bits lo hi) b =
    if ltb b lo || ltb hi b
    then none
    else if need == 1
    then some (some (bits * 64 + (b - 0x80)), first)
    else some (none, more (need - 1) (bits * 64 + (b - 0x80)) 0x80 0xbf)

push_front : Option ℕ → List ℕ → List ℕ
push_front none cs = cs
push_front (some c) cs = c ∷ cs

infixl 5 ◌>>=◌
abbrev ◌>>=◌ {ℓ κ} : {A : Type ℓ} {B : Type κ} → Option A → (A → Option B) → Option B
none >>= f = none
some a >>= f = f a

decode_from : Wait → Bytes → Option (List ℕ)
unfolding step push_front
decode_from first [] = some []
decode_from (more need bits lo hi) [] = none
decode_from w (b ∷ s) = do (c, w') ← step w b; cs ← decode_from w' s; some (push_front c cs)

unfoldable pub decode : Bytes → Option (List ℕ)
unfolding decode_from
decode s = decode_from first s

-- `str::from_utf8`
unfoldable pub from_utf8 : Bytes → Result Str
unfolding decode
from_utf8 s = elim (decode s) [ none ↦ err bad_utf8 | some cs ↦ ok s ]

-- `s.chars()`, of a text that is valid UTF-8
unfoldable pub chars : Str → List ℕ
unfolding decode
chars s = elim (decode s) [ none ↦ [] | some cs ↦ cs ]

-- The decoder takes one encoded character off the front.
decode-char :
    (c : ℕ) (r : Bytes)
    → IsScalar c
    → decode_from first (encode_char c ++ r) ≡ (decode_from first r >>= λ cs. some (c ∷ cs))
unfolding decode_from encode_char
decode-char c r h = ground arith

pub decode-encode : (cs : List ℕ) → All IsScalar cs → decode (encode cs) ≡ some cs
unfolding decode
decode-encode [] h = refl
decode-encode (c ∷ cs) (hc, hs) = rw (decode-char c (encode cs) hc, decode-encode cs hs)

-- Bytes are ordered as the characters that they encode.
pub lt_bytes-encode_char :
    (c d : ℕ) (r r' : Bytes)
    → c < d
    → d < 0x110000
    → lt_bytes (encode_char c ++ r) (encode_char d ++ r') ≡ true
unfolding encode_char
lt_bytes-encode_char c d r r' h k = ground arith

decode-ascii : (s : Bytes) → All (λ b. b < 0x80) s → decode_from first s ≡ some s
unfolding decode_from
decode-ascii [] h = refl
decode-ascii (b ∷ s) (hb, hs) = ground (arith, decode-ascii s hs)

pub from_utf8-ascii : (s : Bytes) → All (λ b. b < 0x80) s → from_utf8 s ≡ ok s
unfolding from_utf8
from_utf8-ascii s h = rw (from_utf8, decode-ascii s h)
