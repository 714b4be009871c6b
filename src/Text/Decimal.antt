-- ===== src/Text/Decimal.antt =====
-- Decimal numbers: `write!(buffer, "{value}")` and `str::parse` at the 64-bit unsigned types.
use pdq.Prelude.{
  ℕ, zero, suc, ◌+◌, ◌-◌, ◌*◌, ◌/◌, ◌%◌, ◌^◌, ◌≤◌, ◌<◌, ◌≡◌, ◌≢◌, refl, ◌||◌, [], ◌∷◌, arith, ltb,
  leb, ◌==◌, if◌then◌else◌, All, is_empty, Bool-cases, ◌∙◌, inl, inr, sym,
}
use pdq.Prelude.Result.{Result, ok, err, bad_int, ◌>>=◌}
use pdq.Text.{Str}

-- The width of `usize` and `u64`.
abbrev pub word : ℕ
word = 2 ^ 64

-- The digits of `n` in front of `out`; the fuel bounds their number.
emit : ℕ → ℕ → Str → Str
emit zero n out = out
emit (suc f) n out =
    let out' = (b'0' + n % 10) ∷ out in
    let rest = emit f (n / 10) out' in if ltb n 10 then out' else rest

-- `format!("{n}")`
unfoldable pub decimal : ℕ → Str
unfolding emit
decimal n = emit (suc n) n []

-- A digit of `{:x}`
hex_digit : ℕ → ℕ
hex_digit d = if ltb d 10 then b'0' + d else b'a' + (d - 10)

emit_hex : ℕ → ℕ → Str → Str
unfolding hex_digit
emit_hex zero n out = out
emit_hex (suc f) n out =
    let out' = hex_digit (n % 16) ∷ out in
    let rest = emit_hex f (n / 16) out' in if ltb n 16 then out' else rest

-- `format!("{n:x}")`
unfoldable pub hex : ℕ → Str
unfolding emit_hex
hex n = emit_hex (suc n) n []

-- One round of `parse`: `checked_mul`, then `checked_add`.
digit : ℕ → ℕ → Result ℕ
digit n c =
    if ltb c b'0' || ltb b'9' c
    then err bad_int
    else if leb word (n * 10)
    then err bad_int
    else if leb word (n * 10 + (c - b'0'))
    then err bad_int
    else ok (n * 10 + (c - b'0'))

digits : Str → ℕ → Result ℕ
unfolding digit
digits [] n = ok n
digits (c ∷ s) n = do m ← digit n c; digits s m

-- `s.parse::<usize>()` and `s.parse::<u64>()`: an optional `+` and at least one digit.
unfoldable pub parse_usize : Str → Result ℕ
unfolding digits
parse_usize [] = err bad_int
parse_usize (c ∷ s) =
    if c == b'+' then (if is_empty s then err bad_int else digits s 0) else digits (c ∷ s) 0

-- The last digit of `n`, read after the digits before it.
digit-last : (n : ℕ) → n < word → digit (n / 10) (b'0' + n % 10) ≡ ok n
unfolding digit
digit-last n fits = ground arith

digits-cons :
    (n : ℕ) (out : Str) → n < word → digits ((b'0' + n % 10) ∷ out) (n / 10) ≡ digits out n
digits-cons n out fits = unfold digits in rw (digit-last n fits)

digits-emit : (f n : ℕ) (out : Str) → n < f → n < word → digits (emit f n out) 0 ≡ digits out n
unfolding emit
digits-emit zero n out h fits = absurd (omega arith)
digits-emit (suc f) n out h fits = elim (Bool-cases (ltb n 10)) [
  | inl small ↦ let one : n / 10 ≡ 0 = ground arith in rw (small, ← one) (digits-cons n out fits)
  | inr large ↦ rw large (
      digits-emit f (n / 10) ((b'0' + n % 10) ∷ out) (ground arith) (omega arith)
      ∙ digits-cons n out fits)
]

-- Every digit is a byte from 0 to 9.
abbrev pub IsDigit : ℕ → Type 0
IsDigit c = (b'0' ≤ c) × (c ≤ b'9')

emit-IsDigit : (f n : ℕ) (out : Str) → All IsDigit out → All IsDigit (emit f n out)
unfolding emit
emit-IsDigit zero n out h = h
emit-IsDigit (suc f) n out h = ground (arith, emit-IsDigit f (n / 10) ((b'0' + n % 10) ∷ out))

emit-ne-nil : (f n : ℕ) (out : Str) → out ≢ [] → emit f n out ≢ []
unfolding emit
emit-ne-nil zero n out h = h
emit-ne-nil (suc f) n out h = ground (arith, emit-ne-nil f (n / 10) ((b'0' + n % 10) ∷ out))

pub decimal-IsDigit : (n : ℕ) → All IsDigit (decimal n)
unfolding decimal
decimal-IsDigit n = emit-IsDigit (suc n) n [] tt

pub decimal-ne-nil : (n : ℕ) → decimal n ≢ []
unfolding decimal
decimal-ne-nil n = ground (arith, emit-ne-nil n (n / 10) ((b'0' + n % 10) ∷ []))

-- Text that begins with a digit has no sign to take off.
parse_usize-digits : (s : Str) → s ≢ [] → All IsDigit s → parse_usize s ≡ digits s 0
unfolding parse_usize
parse_usize-digits [] h d = absurd (h refl)
parse_usize-digits (c ∷ s) h d = ground arith

pub parse_usize-decimal : (n : ℕ) → n < word → parse_usize (decimal n) ≡ ok n
parse_usize-decimal n fits =
    rw (parse_usize-digits (decimal n) (decimal-ne-nil n) (decimal-IsDigit n))
      (unfold decimal digits in digits-emit (suc n) n [] (omega arith) fits)

-- A zero in front changes nothing.
pub parse_usize-zero : (s : Str) → s ≢ [] → All IsDigit s → parse_usize (b'0' ∷ s) ≡ parse_usize s
unfolding digits digit
parse_usize-zero s h d =
    parse_usize-digits (b'0' ∷ s) (λ e. cc) ((omega arith, omega arith), d)
    ∙ sym (parse_usize-digits s h d)
