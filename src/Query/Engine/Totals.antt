-- ===== src/Query/Engine/Totals.antt =====
-- Sums over a list of terms.
use pdq.Prelude.{ℕ, ◌+◌, ◌≡◌, refl, List, [], ◌∷◌, arith}
use pdq.Text.{Str}

abbrev pub total : (Str → ℕ) → List Str → ℕ
total f [] = 0
total f (t ∷ ts) = f t + total f ts

pub total-zero : (ts : List Str) → total (λ t. 0) ts ≡ 0
total-zero [] = refl
total-zero (t ∷ ts) = omega (arith, total-zero ts)

pub total-add :
    (f g : Str → ℕ) (ts : List Str) → total (λ t. f t + g t) ts ≡ total f ts + total g ts
total-add f g [] = refl
total-add f g (t ∷ ts) = omega (arith, total-add f g ts)

pub total-ext :
    (f g : Str → ℕ) → ((t : Str) → f t ≡ g t) → (ts : List Str) → total f ts ≡ total g ts
total-ext f g h [] = refl
total-ext f g h (t ∷ ts) = omega (arith, h t, total-ext f g h ts)
