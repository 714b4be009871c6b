-- ===== src/CorpusGen/Values/Draws.antt =====
-- No draw of a filler value panics: a choice is always in the bounds of its list.
use pdq.Prelude.{
  ℕ, zero, suc, ◌+◌, ◌++◌, ◌%◌, ◌≤◌, ◌<◌, ◌≡◌, refl, some, List, [], ◌∷◌, length, get_elem?, arith,
}
use pdq.Prelude.Exit.{
  finished, NeverPanics, NeverPanics-finish, NeverPanics-bind, NeverPanics-after,
  NeverPanics-unwrap,
}
use pdq.Text.{Str, codes}
use pdq.Text.Decimal.{decimal}
use pdq.CorpusGen.Rng
use pdq.CorpusGen.Values.{
  below, index, dotted, choose, tlds, names, subs, rand_ip, rand_domain, reverse_domain, rand_email,
  rand_reversed, rand_bytes,
}

below-NeverPanics : (n : ℕ) → NeverPanics (below n)
unfolding below
below-NeverPanics n = record { calm = λ x. refl }

-- The number drawn is below the bound.
below-lt : (n x x' v : ℕ) → 0 < n → below n x ≡ (finished v, x') → v < n
unfolding below Rng.below
below-lt n x x' v pos e = let q : Rng.next_u64 x % n ≡ v = (let e' = e in cc) in grind arith

get_elem?-in_range :
    {A : Type 0} (items : List A) (i : ℕ)
    → i < length items
    → (v : A) × (get_elem? items i ≡ some v)
get_elem?-in_range [] i h = absurd (omega arith)
get_elem?-in_range (x ∷ items) zero h = (x, refl)
get_elem?-in_range (x ∷ items) (suc i) h = get_elem?-in_range items i (omega arith)

choose-NeverPanics :
    (items : List Str) (n : ℕ) → 0 < n → n ≤ length items → NeverPanics (choose items n)
unfolding choose
choose-NeverPanics items n pos fits =
    NeverPanics-after (below n) (index items) (below-NeverPanics n) (λ x x' i e.
      let (v, got) = get_elem?-in_range items i (let b = below-lt n x x' i pos e in omega arith) in
      NeverPanics-unwrap (get_elem? items i) v got)

pub rand_ip-NeverPanics : NeverPanics rand_ip
unfolding rand_ip
rand_ip-NeverPanics = NeverPanics-bind _ _ (below-NeverPanics 255) λ a.
    NeverPanics-bind _ _ (below-NeverPanics 256) λ b.
      NeverPanics-bind _ _ (below-NeverPanics 256) λ c.
        NeverPanics-bind _ _ (below-NeverPanics 255)
          λ d. NeverPanics-finish (dotted (1 + a) b c (1 + d))

rand_domain-NeverPanics : NeverPanics rand_domain
unfolding rand_domain
rand_domain-NeverPanics =
    NeverPanics-bind _ _ (choose-NeverPanics tlds 4 (omega arith) (omega arith)) λ tld.
      NeverPanics-bind _ _ (choose-NeverPanics names 5 (omega arith) (omega arith)) λ name.
        NeverPanics-bind _ _ (choose-NeverPanics subs 4 (omega arith) (omega arith))
          λ sub. NeverPanics-finish _

pub rand_reversed-NeverPanics : NeverPanics rand_reversed
unfolding rand_reversed
rand_reversed-NeverPanics =
    NeverPanics-bind _ _ rand_domain-NeverPanics λ d. NeverPanics-finish (reverse_domain d)

pub rand_email-NeverPanics : NeverPanics rand_email
unfolding rand_email
rand_email-NeverPanics = NeverPanics-bind _ _ (below-NeverPanics 100000) λ n.
    NeverPanics-bind _ _ rand_domain-NeverPanics
      λ d. NeverPanics-finish (codes "user" ++ (decimal n ++ (b'@' ∷ d)))

pub rand_bytes-NeverPanics : NeverPanics rand_bytes
unfolding rand_bytes
rand_bytes-NeverPanics =
    NeverPanics-bind _ _ (below-NeverPanics 1436) λ n. NeverPanics-finish (64 + n)
