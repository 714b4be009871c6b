-- ===== src/Examples/Corpora.antt =====
-- Generated corpora, with a writer that keeps the row groups as lists.
use pdq.Prelude.{
  ℕ, ◌≡◌, ◌≢◌, refl, sym, Bool, true, false, Option, none, some, List, [], ◌∷◌, ◌++◌, arith, ◌==◌,
  if◌then◌else◌,
}
use pdq.Prelude.Result.{ok, ok-injective}
use pdq.Prelude.Exit.{finished, panicked}
use pdq.Text.{codes}
use pdq.CorpusGen.Rng
use pdq.CorpusGen.Batch.{Columns, src_ip_col, domain_rev_col}
use pdq.CorpusGen.Write.{
  Arrow, Disk, single_needle, prefix_value, domain_value, multi_ioc, write_corpus,
}
use pdq.CorpusGen.Write.Groups.{IsArrow}
use pdq.CorpusGen.Write.Planted.{Holds, write_corpus-Holds}
use pdq.CorpusGen.Write.Room.{write_corpus-few_rows}

-- The row groups, the bound on their rows, and the batch that waits for a flush.
pub record ListWriter : Type 0 where
  pub groups : List Columns
  pub limit : ℕ
  pub waiting : Option Columns

abbrev pub flushed : Option Columns → List Columns → List Columns
flushed none gs = gs
flushed (some b) gs = gs ++ b ∷ []

abbrev pub has_batch : Option Columns → Bool
has_batch none = false
has_batch (some b) = true

abbrev pub list_arrow : Arrow
list_arrow = record {
  Batch = Columns;
  Writer = ListWriter;
  Image = List Columns;
  try_new = λ c. ok c;
  writer = λ n.
      if n == 0 then panicked else finished (record { groups = []; limit = n; waiting = none });
  write = λ b w. ok (record w { waiting = some b });
  flush = λ w. ok (record w { groups = flushed w.waiting w.groups; waiting = none });
  close = λ w. ok w.groups;
}

writer-starts :
    (n : ℕ) (w : ListWriter)
    → list_arrow.writer n ≡ finished w
    → (w.groups ≡ []) × (has_batch w.waiting ≡ false) × (w.limit ≡ n)
writer-starts n w e = ground arith

flush-write :
    (b : Columns) (w w' w'' : ListWriter)
    → list_arrow.write b w ≡ ok w'
    → list_arrow.flush w' ≡ ok w''
    → (w''.groups ≡ w.groups ++ b ∷ []) × (has_batch w''.waiting ≡ false) × (w''.limit ≡ w.limit)
flush-write b w w' w'' p q = rw (← ok-injective q, ← ok-injective p) (refl, refl, refl)

list_arrow-IsArrow : IsArrow list_arrow
list_arrow-IsArrow = record {
  columns = λ b. b;
  columns-try_new = λ c b e. sym (ok-injective e);
  groups = λ w. w.groups;
  is_waiting = λ w. has_batch w.waiting;
  limit = λ w. w.limit;
  writer-starts = writer-starts;
  flush-write = λ b w w' w'' idle fits p q. flush-write b w w' w'' p q;
  image_groups = λ image. image;
  groups-close = λ w image idle e. sym (ok-injective e);
}

abbrev pub empty_disk : Disk list_arrow
empty_disk = record { files = []; faults = [] }

abbrev generated : Disk list_arrow
generated = (write_corpus list_arrow (codes "data") 2 2 3 11 empty_disk).1

run : write_corpus list_arrow (codes "data") 2 2 3 11 empty_disk ≡ (finished tt, generated)
unfolding write_corpus Rng.new
run = refl

write_corpus-Holds_example :
    Holds list_arrow list_arrow-IsArrow
      (codes "data")
      2
      2
      3
      11
      empty_disk
      generated
      1
      ((0, src_ip_col, 0, multi_ioc 1) ∷ [])
    × Holds list_arrow list_arrow-IsArrow
        (codes "data")
        2
        2
        3
        11
        empty_disk
        generated
        0
        ((0, src_ip_col, 1, prefix_value) ∷ (0, domain_rev_col, 0, domain_value) ∷ [])
    × Holds list_arrow list_arrow-IsArrow
        (codes "data")
        2
        2
        3
        11
        empty_disk
        generated
        1
        ((1, src_ip_col, 2, single_needle) ∷ [])
write_corpus-Holds_example =
    write_corpus-Holds list_arrow list_arrow-IsArrow (codes "data") 2 2 3 11 empty_disk generated
      (omega arith) (omega arith) (omega arith) (omega arith) run 1 (omega arith)

write_corpus-few_rows_example :
    write_corpus list_arrow (codes "data") 1 1 2 11 empty_disk ≢ (finished tt, empty_disk)
write_corpus-few_rows_example =
    write_corpus-few_rows list_arrow list_arrow-IsArrow (codes "data") 1 1 2 11 empty_disk
      empty_disk (omega arith) (omega arith) (omega arith) (omega arith) (omega arith)
