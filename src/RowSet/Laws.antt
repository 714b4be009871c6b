-- ===== src/RowSet/Laws.antt =====
-- What a sorted set of row groups is determined by.
use pdq.Prelude.{
  ℕ, ◌<◌, ◌≡◌, refl, true, false, ◌||◌, List, [], ◌∷◌, arith, ◌==◌, All, Bool-cases, inl, inr,
}
use pdq.RowSet.{contains, hash_insert, insert_sorted, sort_unstable, IsDistinct, IsAscending}

pub contains-hash_insert :
    (g h : ℕ) (s : List ℕ) → contains g (hash_insert h s) ≡ (h == g || contains g s)
unfolding hash_insert
contains-hash_insert g h s = elim (Bool-cases (contains h s)) [
  | inl old ↦ rw old (ground (arith, same g h s old))
  | inr new ↦ rw new
]
  where
    same : (g h : ℕ) (s : List ℕ) → contains h s ≡ true → h ≡ g → contains g s ≡ true
    same g h s old e = rw (← e) old

pub hash_insert-IsDistinct : (h : ℕ) (s : List ℕ) → IsDistinct s → IsDistinct (hash_insert h s)
unfolding hash_insert
hash_insert-IsDistinct h s d = elim (Bool-cases (contains h s)) [
  | inl old ↦ rw old d
  | inr new ↦ rw new (new, d)
]

contains-insert_sorted :
    (g x : ℕ) (s : List ℕ) → contains g (insert_sorted x s) ≡ (x == g || contains g s)
unfolding insert_sorted
contains-insert_sorted g x [] = refl
contains-insert_sorted g x (y ∷ ys) = ground (arith, contains-insert_sorted g x ys)

pub contains-sort_unstable : (g : ℕ) (s : List ℕ) → contains g (sort_unstable s) ≡ contains g s
unfolding sort_unstable
contains-sort_unstable g [] = refl
contains-sort_unstable g (x ∷ xs) =
    rw (contains-insert_sorted g x (sort_unstable xs), contains-sort_unstable g xs)

All-insert_sorted :
    (a x : ℕ) (s : List ℕ) → a < x → All (λ y. a < y) s → All (λ y. a < y) (insert_sorted x s)
unfolding insert_sorted
All-insert_sorted a x [] h hs = (h, tt)
All-insert_sorted a x (y ∷ ys) h (hy, hs) = ground (arith, All-insert_sorted a x ys h hs)

All-lt_trans : (a b : ℕ) (s : List ℕ) → a < b → All (λ y. b < y) s → All (λ y. a < y) s
All-lt_trans a b [] h hs = tt
All-lt_trans a b (y ∷ ys) h (hy, hs) = (omega arith, All-lt_trans a b ys h hs)

insert_sorted-IsAscending :
    (x : ℕ) (s : List ℕ) → contains x s ≡ false → IsAscending s → IsAscending (insert_sorted x s)
unfolding insert_sorted
insert_sorted-IsAscending x [] new h = (tt, tt)
insert_sorted-IsAscending x (y ∷ ys) new (hy, hs) =
    ground (arith, All-lt_trans x y ys, All-insert_sorted y x ys, insert_sorted-IsAscending x ys)

-- Sorting a set gives an ascending list.
pub sort_unstable-IsAscending : (s : List ℕ) → IsDistinct s → IsAscending (sort_unstable s)
unfolding sort_unstable
sort_unstable-IsAscending [] d = tt
sort_unstable-IsAscending (x ∷ xs) (new, d) =
    insert_sorted-IsAscending x (sort_unstable xs) (rw contains-sort_unstable new)
      (sort_unstable-IsAscending xs d)

not_contains-above : (a : ℕ) (s : List ℕ) → All (λ y. a < y) s → contains a s ≡ false
not_contains-above a [] h = refl
not_contains-above a (y ∷ ys) (hy, h) = ground (arith, not_contains-above a ys h)

heads :
    (x y : ℕ) (xs ys : List ℕ)
    → All (λ z. x < z) xs
    → All (λ z. y < z) ys
    → contains x (x ∷ xs) ≡ contains x (y ∷ ys)
    → contains y (x ∷ xs) ≡ contains y (y ∷ ys)
    → x ≡ y
heads x y xs ys hx hy ex ey = ground (
  arith,
  not_contains-above x ys,
  All-lt_trans x y ys,
  not_contains-above y xs,
  All-lt_trans y x xs,
)

-- An ascending list is determined by its members.
pub IsAscending-eq :
    (a b : List ℕ) → IsAscending a → IsAscending b → ((g : ℕ) → contains g a ≡ contains g b) → a ≡ b
IsAscending-eq [] [] ha hb e = refl
IsAscending-eq [] (y ∷ ys) ha hb e = absurd (ground (arith, e y))
IsAscending-eq (x ∷ xs) [] ha hb e = absurd (ground (arith, e x))
IsAscending-eq (x ∷ xs) (y ∷ ys) (hx, ha) (hy, hb) e =
    let same = heads x y xs ys hx hy (e x) (e y) in
    ground (
      arith,
      same,
      IsAscending-eq xs ys ha hb
          (λ g. ground (arith, same, e g, not_contains-above x xs hx, not_contains-above y ys hy)),
    )
