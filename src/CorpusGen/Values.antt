-- ===== src/CorpusGen/Values.antt =====
-- The filler values of corpus_gen.rs: `rand_ip`, `rand_domain` and `reverse_domain`. A draw is an
-- action on the state of the generator.
pub mod Labels
pub mod Draws
use pdq.Prelude.{
  ℕ, zero, suc, ◌+◌, Bool, Option, none, some, List, [], ◌∷◌, ◌++◌, get_elem?, if◌then◌else◌, ◌==◌,
}
use pdq.Prelude.Exit.{Exit, finished, Run, finish, unwrap, ◌>>=◌}
use pdq.Text.{Str, codes}
use pdq.Text.Decimal.{decimal}
use pdq.CorpusGen.Rng
use mathlib.Core.List.{reverse}

-- `rng.below(n)`
unfoldable pub below : ℕ → Run ℕ ℕ
unfolding Rng.below
below n x = let (value, x') = Rng.below n x in (finished value, x')

-- `items[i]`, which panics out of bounds
abbrev pub index : List Str → ℕ → Run ℕ Str
index items i = unwrap (get_elem? items i)

-- `format!("{}.{}.{}.{}", …)`
abbrev pub dotted : ℕ → ℕ → ℕ → ℕ → Str
dotted a b c d = decimal a ++ (b'.' ∷ decimal b ++ (b'.' ∷ decimal c ++ (b'.' ∷ decimal d)))

unfoldable pub rand_ip : Run ℕ Str
unfolding below
rand_ip = do
  a ← below 255
  b ← below 256
  c ← below 256
  d ← below 255
  finish (dotted (1 + a) b c (1 + d))

abbrev pub tlds : List Str
tlds = codes "com" ∷ codes "net" ∷ codes "org" ∷ codes "io" ∷ []

abbrev pub names : List Str
names = codes "alpha" ∷ codes "bravo" ∷ codes "delta" ∷ codes "omega" ∷ codes "zulu" ∷ []

abbrev pub subs : List Str
subs = codes "www" ∷ codes "api" ∷ codes "mail" ∷ codes "cdn" ∷ []

-- `items[rng.below(n) as usize]`
unfoldable pub choose : List Str → ℕ → Run ℕ Str
unfolding below
choose items n = do i ← below n; index items i

unfoldable pub rand_domain : Run ℕ Str
unfolding choose
rand_domain = do
  tld ← choose tlds 4
  name ← choose names 5
  sub ← choose subs 4
  finish (sub ++ (b'.' ∷ name ++ (b'.' ∷ tld)))

-- A byte in front of the first label.
abbrev pub onto_first : ℕ → List Str → List Str
onto_first c [] = (c ∷ []) ∷ []
onto_first c (label ∷ labels) = (c ∷ label) ∷ labels

-- `split('.')`
unfoldable pub split_dots : Str → List Str
split_dots [] = [] ∷ []
split_dots (c ∷ s) = let rest = split_dots s in if c == b'.' then [] ∷ rest else onto_first c rest

abbrev join_onto : Str → List Str → Str
join_onto label [] = label
join_onto label (next ∷ labels) = label ++ (b'.' ∷ join_onto next labels)

-- `join(".")`
unfoldable pub join_dots : List Str → Str
join_dots [] = []
join_dots (label ∷ labels) = join_onto label labels

unfoldable pub reverse_domain : Str → Str
unfolding split_dots join_dots
reverse_domain domain = join_dots (reverse (split_dots domain))

-- `format!("user{}@{}", rng.below(100000), rand_domain(rng))`
unfoldable pub rand_email : Run ℕ Str
unfolding below rand_domain
rand_email = do
  n ← below 100000
  domain ← rand_domain
  finish (codes "user" ++ (decimal n ++ (b'@' ∷ domain)))

unfoldable pub rand_reversed : Run ℕ Str
unfolding rand_domain reverse_domain
rand_reversed = do domain ← rand_domain; finish (reverse_domain domain)

-- `64 + rng.below(1436) as i64`
unfoldable pub rand_bytes : Run ℕ ℕ
unfolding below
rand_bytes = do n ← below 1436; finish (64 + n)
