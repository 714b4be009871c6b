-- ===== src/RowSet.antt =====
-- Sets of row groups: the `HashSet<usize>` that query.rs and provider.rs collect them in, and
-- `sort_unstable` of what comes out of it. A set is a list without repetitions, in an order that
-- nothing below depends on.
pub mod Laws
use pdq.Prelude.{
  ℕ, ◌<◌, ◌≡◌, Bool, false, Option, none, some, List, [], ◌∷◌, leb, ◌==◌, if◌then◌else◌, All, any,
}

-- `contains`
abbrev pub contains : ℕ → List ℕ → Bool
contains g s = any (λ x. x == g) s

-- `HashSet::insert`
unfoldable pub hash_insert : ℕ → List ℕ → List ℕ
hash_insert g s = if contains g s then s else g ∷ s

insert_sorted : ℕ → List ℕ → List ℕ
insert_sorted x [] = x ∷ []
insert_sorted x (y ∷ ys) = if leb x y then x ∷ y ∷ ys else y ∷ insert_sorted x ys

-- `sort_unstable`
unfoldable pub sort_unstable : List ℕ → List ℕ
unfolding insert_sorted
sort_unstable [] = []
sort_unstable (x ∷ xs) = insert_sorted x (sort_unstable xs)

-- `into_iter().collect::<HashSet<_>>()`
unfoldable pub from_vec : List ℕ → List ℕ
unfolding hash_insert
from_vec [] = []
from_vec (x ∷ xs) = hash_insert x (from_vec xs)

-- No repetition.
abbrev pub IsDistinct : List ℕ → Type 0
IsDistinct [] = Unit
IsDistinct (x ∷ xs) = (contains x xs ≡ false) × IsDistinct xs

-- Strictly ascending.
abbrev pub IsAscending : List ℕ → Type 0
IsAscending [] = Unit
IsAscending (x ∷ xs) = All (λ y. x < y) xs × IsAscending xs
