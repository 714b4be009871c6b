-- ===== src/Text/Order.antt =====
-- The order of byte strings, byte by byte: `Ord` of `[u8]`, of `str` and of the keys of an FST.
use pdq.Prelude.{◌≡◌, refl, Bool, true, false, not, ◌&&◌, ◌||◌, [], ◌∷◌, ◌++◌, arith, ltb, ◌==◌}
use pdq.Text.{Bytes}

abbrev pub lt_bytes : Bytes → Bytes → Bool
lt_bytes _ [] = false
lt_bytes [] (y ∷ ys) = true
lt_bytes (x ∷ xs) (y ∷ ys) = ltb x y || x == y && lt_bytes xs ys

-- `a <= b`
abbrev pub le_bytes : Bytes → Bytes → Bool
le_bytes a b = not (lt_bytes b a)

pub lt_bytes_irrefl : (a : Bytes) → lt_bytes a a ≡ false
lt_bytes_irrefl [] = refl
lt_bytes_irrefl (x ∷ xs) = ground (arith, lt_bytes_irrefl xs)

pub lt_bytes_trans :
    (a b c : Bytes) → lt_bytes a b ≡ true → lt_bytes b c ≡ true → lt_bytes a c ≡ true
lt_bytes_trans a b [] p q = ground arith
lt_bytes_trans a [] (z ∷ zs) p q = ground arith
lt_bytes_trans [] (y ∷ ys) (z ∷ zs) p q = refl
lt_bytes_trans (x ∷ xs) (y ∷ ys) (z ∷ zs) p q = ground (arith, lt_bytes_trans xs ys zs)

-- Two strings of which neither is below the other are equal.
pub lt_bytes_connected : (a b : Bytes) → lt_bytes a b ≡ false → lt_bytes b a ≡ false → a ≡ b
lt_bytes_connected [] [] p q = refl
lt_bytes_connected [] (y ∷ ys) p q = cc
lt_bytes_connected (x ∷ xs) [] p q = cc
lt_bytes_connected (x ∷ xs) (y ∷ ys) p q = ground (arith, lt_bytes_connected xs ys)

pub lt_bytes_asymm : (a b : Bytes) → lt_bytes a b ≡ true → lt_bytes b a ≡ false
lt_bytes_asymm a [] p = ground arith
lt_bytes_asymm [] (y ∷ ys) p = refl
lt_bytes_asymm (x ∷ xs) (y ∷ ys) p = ground (arith, lt_bytes_asymm xs ys)

-- A common prefix does not matter.
pub lt_bytes-append : (p a b : Bytes) → lt_bytes (p ++ a) (p ++ b) ≡ lt_bytes a b
lt_bytes-append [] a b = refl
lt_bytes-append (x ∷ xs) a b = ground (arith, lt_bytes-append xs a b)
