-- ===== src/CorpusGen/Batch/Built.antt =====
-- The rows that `build_batch` hands to the crate.
use pdq.Prelude.{ℕ, zero, suc, ◌≡◌, refl, Option, List, [], ◌∷◌, length, arith}
use pdq.Prelude.Result.{Result, ok}
use pdq.Prelude.Exit.{finished, Run, >>=-finished, finish-inv, try-inv}
use pdq.CorpusGen.Values.{rand_ip, rand_reversed, rand_email, rand_bytes}
use pdq.Text.{Str}
use pdq.CorpusGen.Batch.{
  Columns, Injection, Target, src_ip_col, dst_ip_col, domain_rev_col, email_col, field, inject_all,
  draw_rows, filler, build_batch,
}
use pdq.CorpusGen.Batch.Cells.{cell, HasRows, planted, inject_all-IsPlanted}

draw_rows-length :
    {T : Type 0} (n : ℕ) (draw : Run ℕ T) (w w' : ℕ) (xs : List T)
    → draw_rows n draw w ≡ (finished xs, w')
    → length xs ≡ n
unfolding draw_rows
draw_rows-length zero draw w w' xs e = let same : [] ≡ xs = (let e' = e in cc) in rw (← same) refl
draw_rows-length (suc n) draw w w' xs e =
    let ih = draw_rows-length n draw in
    let a = >>=-finished draw _ w w' xs e in
    let b = >>=-finished (draw_rows n draw) _ a.middle w' xs a.second in
    let same : a.value ∷ b.value ≡ xs = (let e' = b.second in cc) in
    rw (← same) (omega (arith, ih a.middle b.middle b.value b.first))

drawn-field :
    (t : Target) (a b d m : List Str) (k : List ℕ) {n : ℕ}
    → length a ≡ n
    → length b ≡ n
    → length d ≡ n
    → length m ≡ n
    → length (field t (record { src_ip = a; dst_ip = b; domain_rev = d; email = m; bytes = k })) ≡ n
drawn-field src_ip_col a b d m k p q r s = p
drawn-field dst_ip_col a b d m k p q r s = q
drawn-field domain_rev_col a b d m k p q r s = r
drawn-field email_col a b d m k p q r s = s

pub filler-HasRows : (n : ℕ) (w w' : ℕ) (c : Columns) → filler n w ≡ (finished c, w') → HasRows n c
unfolding filler
filler-HasRows n w w' c e =
    let a = >>=-finished (draw_rows n rand_ip) _ w w' c e in
    let b = >>=-finished (draw_rows n rand_ip) _ a.middle w' c a.second in
    let d = >>=-finished (draw_rows n rand_reversed) _ b.middle w' c b.second in
    let m = >>=-finished (draw_rows n rand_email) _ d.middle w' c d.second in
    let k = >>=-finished (draw_rows n rand_bytes) _ m.middle w' c m.second in
    let same = finish-inv _ _ _ _ k.second in
    rw (← same) (record {
      columns = λ t.
          drawn-field t a.value b.value d.value m.value k.value
            (draw_rows-length n rand_ip w a.middle a.value a.first)
            (draw_rows-length n rand_ip a.middle b.middle b.value b.first)
            (draw_rows-length n rand_reversed b.middle d.middle d.value d.first)
            (draw_rows-length n rand_email d.middle m.middle m.value m.first);
      numbers = draw_rows-length n rand_bytes m.middle k.middle k.value k.first;
    })

-- What `build_batch` hands to `try_new`.
pub record Built {Batch : Type 0} (try_new : Columns → Result Batch) (n : ℕ)
    (injected : List Injection) (batch : Batch) : Type 0 where
  pub columns : Columns
  pub made : try_new columns ≡ ok batch
  pub rows : HasRows n columns
  pub cells :
      (t : Target) (k : ℕ) → (old : Option Str) × (cell t k columns ≡ planted t k injected old)

pub build_batch-inv :
    {Batch : Type 0} (try_new : Columns → Result Batch) (n : ℕ) (injected : List Injection)
    (w w' : ℕ) (batch : Batch)
    → build_batch try_new n injected w ≡ (finished batch, w')
    → Built try_new n injected batch
unfolding build_batch
build_batch-inv try_new n injected w w' batch e =
    let a = >>=-finished (filler n) _ w w' batch e in
    let b = >>=-finished (inject_all injected a.value) _ a.middle w' batch a.second in
    let h = filler-HasRows n w a.middle a.value a.first in
    let p = inject_all-IsPlanted n injected a.value b.value a.middle b.middle h b.first in
    record {
      columns = b.value;
      made = (try-inv (try_new b.value) b.middle w' batch b.second).0;
      rows = p.rows;
      cells = λ t k. (cell t k a.value, p.cells t k);
    }
