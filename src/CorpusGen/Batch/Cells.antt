-- ===== src/CorpusGen/Batch/Cells.antt =====
-- What a cell of the batch holds after the planted values were put in.
use mathlib.Core.Option.{some-injective}
use pdq.Prelude.{
  ℕ, zero, suc, ◌≡◌, refl, ap, ◌∙◌, Bool, true, false, ◌&&◌, Option, none, some, List, [], ◌∷◌,
  length, get_elem?, if◌then◌else◌, ◌==◌, arith,
}
use pdq.Prelude.Exit.{finished, unwrap, >>=-finished, unwrap-inv}
use pdq.Text.{Str}
use pdq.CorpusGen.Batch.{
  Columns, Injection, Target, src_ip_col, dst_ip_col, domain_rev_col, email_col, target_of, field,
  update, cons_row, set_row, inject_at, inject_all,
}

abbrev same_target : Target → Target → Bool
same_target src_ip_col src_ip_col = true
same_target dst_ip_col dst_ip_col = true
same_target domain_rev_col domain_rev_col = true
same_target email_col email_col = true
same_target _ _ = false

abbrev pub cell : Target → ℕ → Columns → Option Str
cell t row columns = get_elem? (field t columns) row

field-update :
    (t u : Target) (xs : List Str) (c : Columns)
    → field u (update t xs c) ≡ (if same_target t u then xs else field u c)
field-update src_ip_col src_ip_col xs c = refl
field-update dst_ip_col dst_ip_col xs c = refl
field-update domain_rev_col domain_rev_col xs c = refl
field-update email_col src_ip_col xs c = refl
field-update _ _ xs c = refl

cons_row-some :
    (x : Str) (o : Option (List Str)) (ys : List Str)
    → cons_row x o ≡ some ys
    → (zs : List Str) × (o ≡ some zs) × (x ∷ zs ≡ ys)
cons_row-some x none ys e = cc
cons_row-some x (some zs) ys e = (zs, refl, some-injective (x ∷ zs) ys e)

-- A write in bounds sets the cell, and changes no other.
set_row-get :
    (xs : List Str) (row k : ℕ) (v : Str) (ys : List Str)
    → set_row xs row v ≡ some ys
    → get_elem? ys k ≡ (if row == k then some v else get_elem? xs k)
unfolding set_row
set_row-get [] row k v ys e = cc
set_row-get (x ∷ xs) zero zero v ys e = rw (← some-injective (v ∷ xs) ys e) refl
set_row-get (x ∷ xs) zero (suc k) v ys e = rw (← some-injective (v ∷ xs) ys e) (ground arith)
set_row-get (x ∷ xs) (suc row) zero v ys e =
    let (zs, _, same) = cons_row-some x (set_row xs row v) ys e in rw (← same) (ground arith)
set_row-get (x ∷ xs) (suc row) (suc k) v ys e =
    let (zs, done, same) = cons_row-some x (set_row xs row v) ys e in
    rw (← same) (ground (arith, set_row-get xs row k v zs done))

-- It keeps the number of rows.
set_row-length :
    (xs : List Str) (row : ℕ) (v : Str) (ys : List Str)
    → set_row xs row v ≡ some ys
    → length ys ≡ length xs
unfolding set_row
set_row-length [] row v ys e = cc
set_row-length (x ∷ xs) zero v ys e = rw (← some-injective (v ∷ xs) ys e) refl
set_row-length (x ∷ xs) (suc row) v ys e =
    let (zs, done, same) = cons_row-some x (set_row xs row v) ys e in
    rw (← same) (omega (arith, set_row-length xs row v zs done))

-- All columns have so many rows.
pub record HasRows (n : ℕ) (c : Columns) : Type 0 where
  pub columns : (t : Target) → length (field t c) ≡ n
  pub numbers : length c.bytes ≡ n

bytes-update : (t : Target) (xs : List Str) (c : Columns) → (update t xs c).bytes ≡ c.bytes
bytes-update src_ip_col xs c = refl
bytes-update dst_ip_col xs c = refl
bytes-update domain_rev_col xs c = refl
bytes-update email_col xs c = refl

HasRows-update :
    (n : ℕ) (t : Target) (xs : List Str) (c : Columns)
    → length xs ≡ n
    → HasRows n c
    → HasRows n (update t xs c)
HasRows-update n t xs c e h = record {
  columns = λ u. rw (field-update t u xs c) (ground (arith, h.columns u));
  numbers = ap length (bytes-update t xs c) ∙ h.numbers;
}

-- Whether a value is planted in this cell.
abbrev hits : Option Target → ℕ → Target → ℕ → Bool
hits none row t k = false
hits (some u) row t k = same_target u t && row == k

-- What planting leaves in a cell that held `old`: the last value planted there.
abbrev pub planted : Target → ℕ → List Injection → Option Str → Option Str
planted t k [] old = old
planted t k (i ∷ is) old =
    planted t k is (if hits (target_of i.col) i.row t k then some i.val else old)

-- The columns after planting.
pub record IsPlanted (n : ℕ) (injected : List Injection) (before after : Columns) : Type 0 where
  pub rows : HasRows n after
  pub cells : (t : Target) (k : ℕ) → cell t k after ≡ planted t k injected (cell t k before)

get_elem?-if :
    (b : Bool) (xs ys : List Str) (k : ℕ)
    → get_elem? (if b then xs else ys) k ≡ (if b then get_elem? xs k else get_elem? ys k)
get_elem?-if true xs ys k = refl
get_elem?-if false xs ys k = refl

nested-if :
    (a b : Bool) (v : Str) (x y : Option Str)
    → (a ≡ true → x ≡ (if b then some v else y))
    → (if a then x else y) ≡ (if a && b then some v else y)
nested-if true b v x y e = e refl
nested-if false b v x y e = refl

same_target→eq : (t u : Target) → same_target t u ≡ true → t ≡ u
same_target→eq src_ip_col src_ip_col e = refl
same_target→eq dst_ip_col dst_ip_col e = refl
same_target→eq domain_rev_col domain_rev_col e = refl
same_target→eq email_col email_col e = refl
same_target→eq src_ip_col _ e = cc
same_target→eq dst_ip_col _ e = cc
same_target→eq domain_rev_col _ e = cc
same_target→eq email_col _ e = cc

pub inject_at-IsPlanted :
    (n : ℕ) (o : Option Target) (i : Injection) (c c' : Columns) (w w' : ℕ)
    → HasRows n c
    → inject_at o i c w ≡ (finished c', w')
    → HasRows n c'
      × ((t : Target) (k : ℕ) → cell t k c' ≡ (if hits o i.row t k then some i.val else cell t k c))
unfolding inject_at
inject_at-IsPlanted n none i c c' w w' h e = cc
inject_at-IsPlanted n (some u) i c c' w w' h e =
    let b = >>=-finished (unwrap (set_row (field u c) i.row i.val)) _ w w' c' e in
    let set : set_row (field u c) i.row i.val ≡ some b.value = unwrap-inv _ _ _ _ b.first in
    let same : update u b.value c ≡ c' = (let e' = b.second in cc) in
    rw (← same) (
      HasRows-update n u b.value c
          (set_row-length (field u c) i.row i.val b.value set ∙ h.columns u) h,
      λ t k. rw (field-update u t b.value c) (
          get_elem?-if (same_target u t) b.value (field t c) k
          ∙ nested-if (same_target u t) (i.row == k) i.val (get_elem? b.value k) (cell t k c)
              (λ same_col.
                rw (← same_target→eq u t same_col)
                  (set_row-get (field u c) i.row k i.val b.value set))),
    )

pub inject_all-IsPlanted :
    (n : ℕ) (injected : List Injection) (c c' : Columns) (w w' : ℕ)
    → HasRows n c
    → inject_all injected c w ≡ (finished c', w')
    → IsPlanted n injected c c'
unfolding inject_all
inject_all-IsPlanted n [] c c' w w' h e =
    let same : c ≡ c' = (let e' = e in cc) in rw (← same) (record { rows = h; cells = λ t k. refl })
inject_all-IsPlanted n (i ∷ injected) c c' w w' h e =
    let ih = inject_all-IsPlanted n injected in
    let b = >>=-finished (inject_at (target_of i.col) i c) (inject_all injected) w w' c' e in
    let (rows, cells) = inject_at-IsPlanted n (target_of i.col) i c b.value w b.middle h b.first in
    let rest = ih b.value c' b.middle w' rows b.second in
    record {
      rows = rest.rows;
      cells = λ t k. rest.cells t k ∙ ap (planted t k injected) (cells t k);
    }
