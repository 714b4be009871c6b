-- ===== src/CorpusGen/Write/Room.antt =====
-- A row group needs room for the planted values.
use pdq.Prelude.{
  ℕ, zero, suc, ◌-◌, ◌<◌, ◌≡◌, ◌≢◌, some, List, [], ◌∷◌, length, get_elem?, All, arith,
}
use pdq.Prelude.Exit.{finished}
use pdq.Text.{Str}
use pdq.Text.Decimal.{word}
use pdq.CorpusGen.Batch.{src_ip_col}
use pdq.CorpusGen.Batch.Cells.{HasRows}
use pdq.CorpusGen.Write.{Arrow, Disk, write_corpus}
use pdq.CorpusGen.Write.Groups.{IsArrow}
use pdq.CorpusGen.Write.Planted.{write_corpus-Holds}

get_elem?-lt : {A : Type 0} (xs : List A) (i : ℕ) (x : A) → get_elem? xs i ≡ some x → i < length xs
get_elem?-lt [] i x e = cc
get_elem?-lt (y ∷ xs) zero x e = omega arith
get_elem?-lt (y ∷ xs) (suc i) x e = omega (arith, get_elem?-lt xs i x e)

All-get :
    {A : Type 0} (P : A → Type 0) (xs : List A) (i : ℕ) (x : A)
    → All P xs
    → get_elem? xs i ≡ some x
    → P x
All-get P [] i x h e = cc
All-get P (y ∷ xs) zero x (p, h) e = let same : y ≡ x = (let e' = e in cc) in rw (← same) p
All-get P (y ∷ xs) (suc i) x (p, h) e = All-get P xs i x h e

-- With at least one file and one row group, fewer than 2 ^ 64 of each, and fewer than three rows to
-- a row group, `write_corpus` never succeeds.
pub write_corpus-few_rows :
    (arrow : Arrow) (laws : IsArrow arrow) (dir : Str) (n_files rgs rows seed : ℕ)
    (d d' : Disk arrow)
    → n_files < word
    → 0 < n_files
    → rgs < word
    → 0 < rgs
    → rows < 3
    → write_corpus arrow dir n_files rgs rows seed d ≢ (finished tt, d')
write_corpus-few_rows arrow laws dir n_files rgs rows seed d d' fits some_files fit some_groups few
      done =
    let (_, _, last) =
      write_corpus-Holds arrow laws dir n_files rgs rows seed d d' fits some_files fit some_groups
        done 0 some_files in
    let (c, got, needle) = last.cells.0 in
    let h = All-get (HasRows rows) (laws.image_groups last.image) (rgs - 1) c last.rows got in
    let inside = get_elem?-lt c.src_ip 2 _ needle in
    let size : length c.src_ip ≡ rows = h.columns src_ip_col in omega arith
