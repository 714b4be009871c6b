-- ===== src/CorpusGen/Write/Paths.antt =====
-- Different files of the corpus have different paths.
use pdq.Prelude.{
  ℕ, zero, suc, ◌-◌, ◌<◌, ◌≡◌, ◌≢◌, refl, sym, ap, ◌∙◌, false, [], ◌∷◌, ◌++◌, length, drop,
  drop-append, All, if◌then◌else◌, ◌==◌, arith, Bool-cases, inl, inr,
}
use pdq.Prelude.Result.{ok-injective}
use pdq.Text.{Str, codes, str_eq, str_eq_iff}
use pdq.Text.Decimal.{
  decimal, word, parse_usize, IsDigit, decimal-IsDigit, decimal-ne-nil, parse_usize-decimal,
  parse_usize-zero,
}
use pdq.CorpusGen.Write.{zeros, padded, part_path}

before_dot : Str → Str
before_dot [] = []
before_dot (c ∷ s) = let rest = before_dot s in if c == b'.' then [] else c ∷ rest

before_dot-append : (s t : Str) → All IsDigit s → before_dot (s ++ b'.' ∷ t) ≡ s
unfolding before_dot
before_dot-append [] t h = refl
before_dot-append (c ∷ s) t (d, h) = ground (arith, before_dot-append s t h)

zeros-digits : (n : ℕ) (s : Str) → All IsDigit s → All IsDigit (zeros n ++ s)
zeros-digits zero s h = h
zeros-digits (suc n) s h = ((omega arith, omega arith), zeros-digits n s h)

zeros-ne-nil : (n : ℕ) (s : Str) → s ≢ [] → zeros n ++ s ≢ []
zeros-ne-nil zero s h = h
zeros-ne-nil (suc n) s h = λ e. cc

parse_usize-zeros :
    (n : ℕ) (s : Str) → s ≢ [] → All IsDigit s → parse_usize (zeros n ++ s) ≡ parse_usize s
parse_usize-zeros zero s h d = refl
parse_usize-zeros (suc n) s h d =
    parse_usize-zero (zeros n ++ s) (zeros-ne-nil n s h) (zeros-digits n s d)
    ∙ parse_usize-zeros n s h d

padded-digits : (fi : ℕ) → All IsDigit (padded fi)
unfolding padded
padded-digits fi = zeros-digits (5 - length (decimal fi)) (decimal fi) (decimal-IsDigit fi)

padded-injective : (a b : ℕ) → a < word → b < word → padded a ≡ padded b → a ≡ b
unfolding padded
padded-injective a b p q e =
    let back = λ (n : ℕ).
      parse_usize-zeros (5 - length (decimal n)) (decimal n) (decimal-ne-nil n)
        (decimal-IsDigit n) in
    ok-injective (
      sym (parse_usize-decimal a p)
      ∙ sym (back a)
      ∙ ap parse_usize e
      ∙ back b
      ∙ parse_usize-decimal b q)

part_path-injective :
    (dir : Str) (a b : ℕ) → a < word → b < word → part_path dir a ≡ part_path dir b → a ≡ b
unfolding part_path
part_path-injective dir a b p q e =
    let tail = λ (n : ℕ). codes "/part_" ++ (padded n ++ codes ".parquet") in
    let same : tail a ≡ tail b =
      sym (drop-append dir (tail a)) ∙ ap (drop (length dir)) e ∙ drop-append dir (tail b) in
    let rest : padded a ++ codes ".parquet" ≡ padded b ++ codes ".parquet" = ap (drop 6) same in
    padded-injective a b p q (
      sym (before_dot-append (padded a) (codes "parquet") (padded-digits a))
      ∙ ap before_dot rest
      ∙ before_dot-append (padded b) (codes "parquet") (padded-digits b))

pub part_path-differs :
    (dir : Str) (a b : ℕ)
    → a < word
    → b < word
    → a ≢ b
    → str_eq (part_path dir a) (part_path dir b) ≡ false
part_path-differs dir a b p q differ =
    elim (Bool-cases (str_eq (part_path dir a) (part_path dir b))) [
      | inl same ↦ absurd (differ (part_path-injective dir a b p q ((str_eq_iff _ _).0 same)))
      | inr other ↦ other
    ]
