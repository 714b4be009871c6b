-- ===== src/Assoc.antt =====
-- `HashMap` as an association list, over any key type with a test of equality. Iteration is in the
-- order of the list, which stands for the unspecified order of the hash map.
use pdq.Prelude.{
  ◌≡◌, refl, ap, ◌↔◌, Bool, true, ◌&&◌, Option, none, some, List, [], ◌∷◌, arith, if◌then◌else◌,
}
use pdq.Text.{Str, str_eq, str_eq_iff}

pub record Eq {ℓ} (K : Type ℓ) : Type ℓ where
  pub beq : K → K → Bool
  pub beq_iff : (a b : K) → (beq a b ≡ true) ↔ (a ≡ b)

abbrev pub pair_eq : Str × Str → Str × Str → Bool
pair_eq (a, b) (c, d) = str_eq a c && str_eq b d

pub pair_eq_iff : (p q : Str × Str) → (pair_eq p q ≡ true) ↔ (p ≡ q)
pair_eq_iff (a, b) (c, d) = (
  λ h. ground (arith, str_eq_iff a c, str_eq_iff b d),
  λ e. ground (arith, str_eq_iff a c, str_eq_iff b d, ap (λ p. p.0) e, ap (λ p. p.1) e),
)

instance abbrev pub str_key : Eq Str
str_key = record { beq = str_eq; beq_iff = str_eq_iff }

instance abbrev pub pair_key : Eq (Str × Str)
pair_key = record { beq = pair_eq; beq_iff = pair_eq_iff }

abbrev pub Map {ℓ} : Type ℓ → Type ℓ → Type ℓ
Map K V = List (K × V)

module _ {ℓ} {K V : Type ℓ} ⦃e : Eq K⦄ where
  -- `get`
  unfoldable pub lookup : K → Map K V → Option V
  lookup key [] = none
  lookup key ((key', value) ∷ rest) = if e.beq key' key then some value else lookup key rest

  unfoldable pub insert : K → V → Map K V → Map K V
  insert key value [] = (key, value) ∷ []
  insert key value ((key', value') ∷ rest) =
      let rest' = insert key value rest in
      if e.beq key' key then (key, value) ∷ rest else (key', value') ∷ rest'

  unfoldable pub remove : K → Map K V → Map K V
  remove key [] = []
  remove key ((key', value') ∷ rest) =
      let rest' = remove key rest in if e.beq key' key then rest' else (key', value') ∷ rest'

  pub lookup-remove :
      (k j : K) (m : Map K V) → lookup j (remove k m) ≡ (if e.beq k j then none else lookup j m)
  unfolding lookup remove
  lookup-remove k j [] = ground arith
  lookup-remove k j ((i, w) ∷ m) =
      ground (arith, e.beq_iff k j, e.beq_iff i k, e.beq_iff i j, lookup-remove k j m)

  pub lookup-insert :
      (key other : K) (value : V) (map : Map K V)
      → lookup other (insert key value map)
        ≡ (if e.beq key other then some value else lookup other map)
  unfolding insert lookup
  lookup-insert key other value [] = refl
  lookup-insert key other value ((key', value') ∷ rest) =
      let rest' = lookup-insert key other value rest in
      ground (arith, rest', e.beq_iff key other, e.beq_iff key' other, e.beq_iff key' key)

  pub lookup-insert_self :
      (key : K) (value : V) (map : Map K V) → lookup key (insert key value map) ≡ some value
  lookup-insert_self key value map = rw (lookup-insert, (e.beq_iff key key).1 refl)
