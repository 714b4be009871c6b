-- ===== src/Provider/Prune/Needs.antt =====
-- The row groups of one data file that a query's filters need, by a full scan.
use pdq.Prelude.{
  ℕ, ◌≡◌, refl, Bool, true, false, not, ◌||◌, Option, none, some, List, [], ◌∷◌, any, all, arith,
  is_empty,
}
use pdq.Text.{Str}
use pdq.RowSet.{contains}
use pdq.Parquet.{RowGroup, scan_groups}
use pdq.Query.Ranges.{is_exact}
use pdq.Provider.Prune.{Expr, extract_equality_filter}
use pdq.Provider.Prune.Laws.{is_present}

-- The row groups of a file that a full scan finds for a filter `column = value`.
abbrev pub found_by : List RowGroup → Option (Str × Str) → List ℕ
found_by groups none = []
found_by groups (some (name, value)) = scan_groups (is_exact value) name 0 groups

-- The full scan finds something in the file for this filter.
abbrev pub finds : List RowGroup → Expr → Bool
finds groups f = not (is_empty (found_by groups (extract_equality_filter f)))

-- If the full scan finds something in the file for this filter, it finds it in this row group.
abbrev pub agrees : ℕ → List RowGroup → Expr → Bool
agrees g groups f = not (finds groups f) || contains g (found_by groups (extract_equality_filter f))

abbrev pub is_equality : Expr → Bool
is_equality f = is_present (extract_equality_filter f)

abbrev pub found_in : ℕ → List RowGroup → Option (Str × Str) → Bool
found_in g groups none = true
found_in g groups (some f) = contains g (found_by groups (some f))

-- If the filter is an equality filter, a full scan finds its value in the row group.
abbrev pub holds_in : ℕ → List RowGroup → Expr → Bool
holds_in g groups f = found_in g groups (extract_equality_filter f)

pub contains-not_empty : (g : ℕ) (s : List ℕ) → contains g s ≡ true → is_empty s ≡ false
contains-not_empty g [] h = cc
contains-not_empty g (x ∷ xs) h = refl

found_in-agrees :
    (g : ℕ) (groups : List RowGroup) (f : Option (Str × Str))
    → found_in g groups f ≡ true
    → (not (not (is_empty (found_by groups f))) || contains g (found_by groups f)) ≡ true
found_in-agrees g groups none h = refl
found_in-agrees g groups (some f) h = rw h (ground arith)

found_in-finds :
    (g : ℕ) (groups : List RowGroup) (f : Option (Str × Str))
    → is_present f ≡ true
    → found_in g groups f ≡ true
    → not (is_empty (found_by groups f)) ≡ true
found_in-finds g groups none p h = cc
found_in-finds g groups (some f) p h = rw (contains-not_empty g (found_by groups (some f)) h) refl

pub all-agrees :
    (g : ℕ) (groups : List RowGroup) (fs : List Expr)
    → all (holds_in g groups) fs ≡ true
    → all (agrees g groups) fs ≡ true
all-agrees g groups [] h = refl
all-agrees g groups (f ∷ fs) h =
    ground (arith, found_in-agrees g groups (extract_equality_filter f), all-agrees g groups fs)

pub any-finds :
    (g : ℕ) (groups : List RowGroup) (fs : List Expr)
    → any is_equality fs ≡ true
    → all (holds_in g groups) fs ≡ true
    → any (finds groups) fs ≡ true
any-finds g groups [] p h = cc
any-finds g groups (f ∷ fs) p h =
    ground (arith, found_in-finds g groups (extract_equality_filter f), any-finds g groups fs)
