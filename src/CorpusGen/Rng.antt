-- ===== src/CorpusGen/Rng.antt =====
-- `Rng` of corpus_gen.rs: a xorshift generator on 64 bits. Its state is a `u64`.
use Prim.Native.Nat.{max, bit_xor}
use pdq.Prelude.{ℕ, zero, suc, ◌*◌, ◌/◌, ◌%◌, ◌^◌, ◌<◌, ◌≢◌, arith}
use pdq.Prelude.Bits.{bit_xor-lt, bit_xor-zero}
use pdq.Text.Decimal.{word}

-- `Self(seed.max(1))`
unfoldable pub new : ℕ → ℕ
new seed = max seed 1

-- `x ^= x << k`, in 64 bits, and `x ^= x >> k`
unfoldable pub xor_left : ℕ → ℕ → ℕ
xor_left k x = bit_xor x (x * 2 ^ k % word)

unfoldable pub xor_right : ℕ → ℕ → ℕ
xor_right k x = bit_xor x (x / 2 ^ k)

-- The number that is returned is also the state after it.
unfoldable pub next_u64 : ℕ → ℕ
unfolding xor_left xor_right
next_u64 x = xor_left 17 (xor_right 7 (xor_left 13 x))

-- `below`: the number, and the state after it.
unfoldable pub below : ℕ → ℕ → ℕ × ℕ
unfolding next_u64
below n x = let x' = next_u64 x in (x' % n, x')

-- A `u64` that is not 0.
abbrev pub IsState : ℕ → Type 0
IsState x = (0 < x) × (x < word)

-- After any number of draws.
abbrev pub advance : ℕ → ℕ → ℕ
advance zero x = x
advance (suc n) x = advance n (next_u64 x)

pub new-IsState : (seed : ℕ) → seed < word → IsState (new seed)
unfolding new
new-IsState seed fits = omega arith

-- A shift to the left by 13 or 17 places fixes only 0, since `2 ^ k - 1` is odd.
xor_left-IsState : (k x : ℕ) → (x ≢ x * 2 ^ k % word) → IsState x → IsState (xor_left k x)
unfolding xor_left
xor_left-IsState k x moved (pos, fits) = (
  ground (arith, bit_xor-zero 64 x (x * 2 ^ k % word)),
  bit_xor-lt 64 x (x * 2 ^ k % word) fits (omega arith),
)

xor_right-IsState : (x : ℕ) → IsState x → IsState (xor_right 7 x)
unfolding xor_right
xor_right-IsState x (pos, fits) =
    (ground (arith, bit_xor-zero 64 x (x / 2 ^ 7)), bit_xor-lt 64 x (x / 2 ^ 7) fits (omega arith))

shift_13 : (x : ℕ) → IsState x → x ≢ x * 2 ^ 13 % word
shift_13 x h e = omega arith

shift_17 : (x : ℕ) → IsState x → x ≢ x * 2 ^ 17 % word
shift_17 x h e = omega arith

pub next_u64-IsState : (x : ℕ) → IsState x → IsState (next_u64 x)
unfolding next_u64
next_u64-IsState x h =
    let a = xor_left-IsState 13 x (shift_13 x h) h in
    let b = xor_right-IsState (xor_left 13 x) a in
    xor_left-IsState 17 (xor_right 7 (xor_left 13 x)) (shift_17 (xor_right 7 (xor_left 13 x)) b) b

pub advance-IsState : (n x : ℕ) → IsState x → IsState (advance n x)
advance-IsState zero x h = h
advance-IsState (suc n) x h = advance-IsState n (next_u64 x) (next_u64-IsState x h)

-- Whatever the seed, the generator is never in the state 0, in which it would stay, and its state
-- stays within 64 bits.
pub Rng-IsState : (seed n : ℕ) → seed < word → IsState (advance n (new seed))
Rng-IsState seed n fits = advance-IsState n (new seed) (new-IsState seed fits)
