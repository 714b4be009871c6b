-- ===== src/Parquet/Laws.antt =====
-- Full scans: their result is ascending, and which row groups are in it.
use pdq.Prelude.{
  ℕ, suc, ◌+◌, ◌≤◌, ◌<◌, ◌≡◌, refl, Bool, true, false, ◌&&◌, ◌||◌, List, [], ◌∷◌, arith, ◌==◌, All,
  any, length, not, is_empty,
}
use pdq.Text.{Str}
use pdq.Parquet.{RowGroup, group_values, is_readable, scan_groups}
use pdq.RowSet.{contains, IsAscending}

-- Some value `v` of row group `h` passes `Q v h`.
abbrev pub any_value : (Str → ℕ → Bool) → Str → ℕ → List RowGroup → Bool
any_value Q name idx [] = false
any_value Q name idx (g ∷ gs) =
    any (λ v. Q v idx) (group_values name g) || any_value Q name (suc idx) gs

-- Every value of the column has the property.
abbrev pub AllValues {ℓ} : (Str → Type ℓ) → Str → List RowGroup → Type ℓ
AllValues P name [] = Unit
AllValues P name (g ∷ gs) = All P (group_values name g) × AllValues P name gs

-- Every row group can be decoded.
abbrev pub AllReadable : List RowGroup → Type 0
AllReadable = All (λ g. is_readable g ≡ true)

scan_groups-ge :
    (q : Str → Bool) (name : Str) (i idx : ℕ) (gs : List RowGroup)
    → i < idx
    → All (λ j. i < j) (scan_groups q name idx gs)
unfolding scan_groups
scan_groups-ge q name i idx [] h = tt
scan_groups-ge q name i idx (g ∷ gs) h =
    ground (arith, scan_groups-ge q name i (suc idx) gs (omega arith))

pub scan_groups-IsAscending :
    (q : Str → Bool) (name : Str) (idx : ℕ) (gs : List RowGroup)
    → IsAscending (scan_groups q name idx gs)
unfolding scan_groups
scan_groups-IsAscending q name idx [] = tt
scan_groups-IsAscending q name idx (g ∷ gs) =
    ground
      (arith, scan_groups-IsAscending q name (suc idx) gs, scan_groups-ge q name idx (suc idx) gs)

any-and : (q : Str → Bool) (b : Bool) (vs : List Str) → any (λ v. q v && b) vs ≡ (any q vs && b)
any-and q b [] = refl
any-and q b (v ∷ vs) = ground (arith, any-and q b vs)

pub contains-scan_groups :
    (q : Str → Bool) (name : Str) (idx : ℕ) (gs : List RowGroup) (g : ℕ)
    → contains g (scan_groups q name idx gs) ≡ any_value (λ v h. q v && h == g) name idx gs
unfolding scan_groups
contains-scan_groups q name idx [] g = refl
contains-scan_groups q name idx (r ∷ rs) g =
    rw (any-and q (idx == g) (group_values name r), ← contains-scan_groups q name (suc idx) rs g)
      (ground arith)

any-eq : (p q : Str → Bool) (vs : List Str) → All (λ v. p v ≡ q v) vs → any p vs ≡ any q vs
any-eq p q [] h = refl
any-eq p q (v ∷ vs) (hv, h) = rw (hv, any-eq p q vs h)

All-weaken {ℓ κ} :
    {P : Str → Type ℓ} {Q : Str → Type κ} (vs : List Str)
    → ((v : Str) → P v → Q v)
    → All P vs
    → All Q vs
All-weaken [] f h = tt
All-weaken (v ∷ vs) f (hv, h) = (f v hv, All-weaken vs f h)

-- Two tests that agree on the values of the column find the same.
pub any_value-eq {ℓ} :
    (P : Str → Type ℓ) (Q R : Str → ℕ → Bool) (name : Str) (idx bound : ℕ) (gs : List RowGroup)
    → ((v : Str) (h : ℕ) → P v → h < bound → Q v h ≡ R v h)
    → AllValues P name gs
    → idx + length gs ≤ bound
    → any_value Q name idx gs ≡ any_value R name idx gs
any_value-eq P Q R name idx bound [] e h fits = refl
any_value-eq P Q R name idx bound (g ∷ gs) e (hg, h) fits = rw (
  any-eq (λ v. Q v idx) (λ v. R v idx) (group_values name g)
      (All-weaken (group_values name g) (λ v p. e v idx p (omega arith)) hg),
  any_value-eq P Q R name (suc idx) bound gs e h (omega arith),
)

-- A full scan by two tests that agree on the values of the column.
pub scan_groups-eq {ℓ} :
    (P : Str → Type ℓ) (p q : Str → Bool) (name : Str) (idx : ℕ) (gs : List RowGroup)
    → ((v : Str) → P v → p v ≡ q v)
    → AllValues P name gs
    → scan_groups p name idx gs ≡ scan_groups q name idx gs
unfolding scan_groups
scan_groups-eq P p q name idx [] e h = refl
scan_groups-eq P p q name idx (g ∷ gs) e (hg, h) = rw (
  any-eq p q (group_values name g) (All-weaken (group_values name g) e hg),
  scan_groups-eq P p q name (suc idx) gs e h,
)

All-any : (vs : List Str) → All (λ v. Unit {0}) vs
All-any [] = tt
All-any (v ∷ vs) = (tt, All-any vs)

pub AllValues-any : (name : Str) (gs : List RowGroup) → AllValues (λ v. Unit {0}) name gs
AllValues-any name [] = tt
AllValues-any name (g ∷ gs) = (All-any (group_values name g), AllValues-any name gs)

pub not-is_empty-scan_groups :
    (q : Str → Bool) (name : Str) (idx : ℕ) (gs : List RowGroup)
    → not (is_empty (scan_groups q name idx gs)) ≡ any_value (λ v h. q v) name idx gs
unfolding scan_groups
not-is_empty-scan_groups q name idx [] = refl
not-is_empty-scan_groups q name idx (g ∷ gs) =
    ground (arith, not-is_empty-scan_groups q name (suc idx) gs)

any-false : (vs : List Str) → any (λ v. false) vs ≡ false
any-false [] = refl
any-false (v ∷ vs) = any-false vs

pub scan_groups-false :
    (name : Str) (idx : ℕ) (gs : List RowGroup) → scan_groups (λ v. false) name idx gs ≡ []
unfolding scan_groups
scan_groups-false name idx [] = refl
scan_groups-false name idx (g ∷ gs) =
    rw (any-false (group_values name g)) (scan_groups-false name (suc idx) gs)
