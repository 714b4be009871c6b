-- ===== src/CorpusGen/Batch.antt =====
-- `build_batch` of corpus_gen.rs: the filler columns of a row group, with the planted values put over
-- them. `RecordBatch::try_new` is the crate's.
pub mod Cells
pub mod Built
use pdq.Prelude.{ℕ, zero, suc, Bool, Option, none, some, List, [], ◌∷◌, if◌then◌else◌}
use pdq.Prelude.Result.{Result, err, no_column}
use pdq.Prelude.Exit.{Run, finish, try, unwrap, ◌>>=◌}
use pdq.Text.{Str, codes, str_eq}
use pdq.CorpusGen.Values.{rand_ip, rand_reversed, rand_email, rand_bytes}

pub record Columns : Type 0 where
  pub src_ip : List Str
  pub dst_ip : List Str
  pub domain_rev : List Str
  pub email : List Str
  pub bytes : List ℕ

-- `(col, row, val)`
pub record Injection : Type 0 where
  pub col : Str
  pub row : ℕ
  pub val : Str

pub data Target : Type 0 where
  src_ip_col dst_ip_col domain_rev_col email_col : Target

-- `match *col`
unfoldable pub target_of : Str → Option Target
target_of col =
    if str_eq col (codes "src_ip")
    then some src_ip_col
    else if str_eq col (codes "dst_ip")
    then some dst_ip_col
    else if str_eq col (codes "domain_rev")
    then some domain_rev_col
    else if str_eq col (codes "email")
    then some email_col
    else none

abbrev pub field : Target → Columns → List Str
field src_ip_col c = c.src_ip
field dst_ip_col c = c.dst_ip
field domain_rev_col c = c.domain_rev
field email_col c = c.email

abbrev pub update : Target → List Str → Columns → Columns
update src_ip_col xs c = record c { src_ip = xs }
update dst_ip_col xs c = record c { dst_ip = xs }
update domain_rev_col xs c = record c { domain_rev = xs }
update email_col xs c = record c { email = xs }

abbrev pub cons_row : Str → Option (List Str) → Option (List Str)
cons_row x none = none
cons_row x (some xs) = some (x ∷ xs)

-- `target[*row] = val`; `none` is the panic out of bounds.
unfoldable pub set_row : List Str → ℕ → Str → Option (List Str)
set_row [] row val = none
set_row (x ∷ xs) zero val = some (val ∷ xs)
set_row (x ∷ xs) (suc row) val = cons_row x (set_row xs row val)

unfoldable pub inject_at : Option Target → Injection → Columns → Run ℕ Columns
unfolding set_row
inject_at none i columns = try (err no_column)
inject_at (some t) i columns = do
  xs ← unwrap (set_row (field t columns) i.row i.val)
  finish (update t xs columns)

-- `for (col, row, val) in injected`
unfoldable pub inject_all : List Injection → Columns → Run ℕ Columns
unfolding inject_at target_of
inject_all [] columns = finish columns
inject_all (i ∷ injected) columns = do
  columns' ← inject_at (target_of i.col) i columns
  inject_all injected columns'

-- `(0..n_rows).map(|_| …).collect()`
unfoldable pub draw_rows : {T : Type 0} → ℕ → Run ℕ T → Run ℕ (List T)
draw_rows zero draw = finish []
draw_rows (suc n) draw = do value ← draw; rest ← draw_rows n draw; finish (value ∷ rest)

unfoldable pub filler : ℕ → Run ℕ Columns
unfolding draw_rows rand_ip rand_reversed rand_email rand_bytes
filler n_rows = do
  src_ip ← draw_rows n_rows rand_ip
  dst_ip ← draw_rows n_rows rand_ip
  domain_rev ← draw_rows n_rows rand_reversed
  email ← draw_rows n_rows rand_email
  bytes ← draw_rows n_rows rand_bytes
  finish (record {
    src_ip = src_ip;
    dst_ip = dst_ip;
    domain_rev = domain_rev;
    email = email;
    bytes = bytes;
  })

unfoldable pub build_batch :
    {Batch : Type 0} → (Columns → Result Batch) → ℕ → List Injection → Run ℕ Batch
unfolding filler inject_all
build_batch try_new n_rows injected = do
  columns ← filler n_rows
  columns' ← inject_all injected columns
  try (try_new columns')
