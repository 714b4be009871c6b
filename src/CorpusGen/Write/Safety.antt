-- ===== src/CorpusGen/Write/Safety.antt =====
-- `write_corpus` does not panic where the row groups have room for the planted values.
use pdq.Prelude.{
  ℕ, zero, suc, ◌≤◌, ◌<◌, ◌≡◌, refl, ap, Bool, true, false, ◌&&◌, Option, none, some, List, [], ◌∷◌,
  length, All, All-append, if◌then◌else◌, ◌==◌, arith,
}
use pdq.Prelude.Result.{Result, err, no_column}
use pdq.Prelude.Exit.{
  Exit, finished, failed, stopped, panicked, is_panic, Run, try, NeverPanics, NeverPanics-finish,
  NeverPanics-try, NeverPanics-unwrap, NeverPanics-bind, NeverPanics-after,
}
use pdq.Text.{Str}
use pdq.IndexDir.{OnDisk, unreadable, present}
use pdq.CorpusGen.Rng
use pdq.CorpusGen.Values.{rand_ip, rand_reversed, rand_email, rand_bytes}
use pdq.CorpusGen.Values.Draws.{
  rand_ip-NeverPanics, rand_reversed-NeverPanics, rand_email-NeverPanics, rand_bytes-NeverPanics,
}
use pdq.CorpusGen.Batch.{
  Columns, Injection, Target, target_of, field, cons_row, set_row, inject_at, inject_all, draw_rows,
  filler, build_batch,
}
use pdq.CorpusGen.Batch.Cells.{HasRows, inject_at-IsPlanted}
use pdq.CorpusGen.Batch.Built.{filler-HasRows}
use pdq.CorpusGen.Write.{
  Arrow, Disk, injected, draw, pred_usize, part_path, file_seed, fault, attempt, put_file,
  create_file, stay, write_group, write_groups, write_file, write_files, write_corpus,
}

set_row-in_range :
    (xs : List Str) (row : ℕ) (v : Str)
    → row < length xs
    → (ys : List Str) × (set_row xs row v ≡ some ys)
unfolding set_row
set_row-in_range [] row v h = absurd (omega arith)
set_row-in_range (x ∷ xs) zero v h = (v ∷ xs, refl)
set_row-in_range (x ∷ xs) (suc row) v h =
    let (ys, done) = set_row-in_range xs row v (omega arith) in (x ∷ ys, ap (cons_row x) done)

inject_at-NeverPanics :
    (n : ℕ) (o : Option Target) (i : Injection) (c : Columns)
    → HasRows n c
    → i.row < n
    → NeverPanics (inject_at o i c)
unfolding inject_at
inject_at-NeverPanics n none i c h fits = NeverPanics-try (err no_column)
inject_at-NeverPanics n (some t) i c h fits =
    let (ys, done) = set_row-in_range (field t c) i.row i.val (rw (h.columns t) fits) in
    NeverPanics-bind _ _ (NeverPanics-unwrap (set_row (field t c) i.row i.val) ys done)
      λ xs. NeverPanics-finish _

inject_all-NeverPanics :
    (n : ℕ) (is : List Injection) (c : Columns)
    → HasRows n c
    → All (λ i. i.row < n) is
    → NeverPanics (inject_all is c)
unfolding inject_all
inject_all-NeverPanics n [] c h fits = NeverPanics-finish c
inject_all-NeverPanics n (i ∷ is) c h (fits, rest) =
    let ih = inject_all-NeverPanics n is in
    NeverPanics-after (inject_at (target_of i.col) i c) (inject_all is)
      (inject_at-NeverPanics n (target_of i.col) i c h fits)
      (λ w w' c' e. ih c' (inject_at-IsPlanted n (target_of i.col) i c c' w w' h e).0 rest)

draw_rows-NeverPanics :
    {T : Type 0} (n : ℕ) (m : Run ℕ T) → NeverPanics m → NeverPanics (draw_rows n m)
unfolding draw_rows
draw_rows-NeverPanics zero m h = NeverPanics-finish []
draw_rows-NeverPanics (suc n) m h =
    let ih = draw_rows-NeverPanics n m h in
    NeverPanics-bind _ _ h
      λ value. NeverPanics-bind _ _ ih λ rest. NeverPanics-finish (value ∷ rest)

filler-NeverPanics : (n : ℕ) → NeverPanics (filler n)
unfolding filler
filler-NeverPanics n =
    NeverPanics-bind _ _ (draw_rows-NeverPanics n rand_ip rand_ip-NeverPanics) λ a.
      NeverPanics-bind _ _ (draw_rows-NeverPanics n rand_ip rand_ip-NeverPanics) λ b.
        NeverPanics-bind _ _ (draw_rows-NeverPanics n rand_reversed rand_reversed-NeverPanics) λ c.
          NeverPanics-bind _ _ (draw_rows-NeverPanics n rand_email rand_email-NeverPanics) λ d.
            NeverPanics-bind _ _ (draw_rows-NeverPanics n rand_bytes rand_bytes-NeverPanics) λ k.
              NeverPanics-finish
                (record { src_ip = a; dst_ip = b; domain_rev = c; email = d; bytes = k })

build_batch-NeverPanics :
    {Batch : Type 0} (try_new : Columns → Result Batch) (n : ℕ) (is : List Injection)
    → All (λ i. i.row < n) is
    → NeverPanics (build_batch try_new n is)
unfolding build_batch
build_batch-NeverPanics try_new n is fits =
    NeverPanics-after (filler n) _ (filler-NeverPanics n) λ w w' c e.
      NeverPanics-bind (inject_all is c) _
        (inject_all-NeverPanics n is c (filler-HasRows n w w' c e) fits)
        (λ c'. NeverPanics-try (try_new c'))

-- Values are planted in the first three rows only.
All-if :
    {A : Type 0} (P : A → Type 0) (b : Bool) (xs : List A) → All P xs → All P (if b then xs else [])
All-if P true xs h = h
All-if P false xs h = tt

injected-fits :
    (needle_file needle_rg fi rgi n : ℕ)
    → 3 ≤ n
    → All (λ i. i.row < n) (injected needle_file needle_rg fi rgi)
unfolding injected
injected-fits needle_file needle_rg fi rgi n room =
    All-append _ _ _ (All-if _ (rgi == 0) _ (omega arith, tt)) (
      All-append _ _ _ (All-if _ (fi == 0 && rgi == 0) _ (omega arith, (omega arith, tt)))
        (All-if _ (fi == needle_file && rgi == needle_rg) _ (omega arith, tt)))

module _ (arrow : Arrow) where
  draw-NeverPanics :
      {T : Type 0} (x : Exit T × ℕ) → is_panic x.0 ≡ false → NeverPanics (draw arrow x)
  unfolding draw
  draw-NeverPanics (finished value, rng) h = record { calm = λ d. refl }
  draw-NeverPanics (failed reason, rng) h = record { calm = λ d. refl }
  draw-NeverPanics (stopped code, rng) h = record { calm = λ d. refl }
  draw-NeverPanics (panicked, rng) h = absurd (cc)

  fault-calm : (fs : List Bool) (d : Disk arrow) → is_panic (fault arrow fs d).0 ≡ false
  unfolding fault
  fault-calm [] d = refl
  fault-calm (false ∷ fs) d = refl
  fault-calm (true ∷ fs) d = refl

  attempt-NeverPanics : NeverPanics (attempt arrow)
  unfolding attempt
  attempt-NeverPanics = record { calm = λ d. fault-calm d.faults d }

  put_file-NeverPanics : (path : Str) (x : OnDisk arrow.Image) → NeverPanics (put_file arrow path x)
  unfolding put_file
  put_file-NeverPanics path x = record { calm = λ d. refl }

  create_file-NeverPanics : (path : Str) → NeverPanics (create_file arrow path)
  unfolding create_file
  create_file-NeverPanics path =
      NeverPanics-bind _ _ attempt-NeverPanics λ u. put_file-NeverPanics path unreadable

  write_group-NeverPanics :
      (n : ℕ) (is : List Injection) (w : arrow.Writer) (rng : ℕ)
      → All (λ i. i.row < n) is
      → NeverPanics (write_group arrow n is w rng)
  unfolding write_group
  write_group-NeverPanics n is w rng fits =
      NeverPanics-bind (draw arrow (build_batch arrow.try_new n is rng)) _
        (draw-NeverPanics (build_batch arrow.try_new n is rng)
          ((build_batch-NeverPanics arrow.try_new n is fits).calm rng))
        λ drawn. NeverPanics-bind (try (arrow.write drawn.0 w)) _ (NeverPanics-try _) λ w'.
          NeverPanics-bind (try (arrow.flush w')) _ (NeverPanics-try _)
            λ w''. NeverPanics-finish (w'', drawn.1)

  module _ (needle_file needle_rg n : ℕ) (room : 3 ≤ n)
      (made : is_panic (arrow.writer n) ≡ false) where
    write_groups-NeverPanics :
        (fi left rgi : ℕ) (w : arrow.Writer) (rng : ℕ)
        → NeverPanics (write_groups arrow needle_file needle_rg n fi left rgi w rng)
    unfolding write_groups
    write_groups-NeverPanics fi zero rgi w rng = NeverPanics-finish w
    write_groups-NeverPanics fi (suc left) rgi w rng =
        let ih = write_groups-NeverPanics fi left (suc rgi) in
        let is = injected needle_file needle_rg fi rgi in
        NeverPanics-bind (write_group arrow n is w rng) _
          (write_group-NeverPanics n is w rng (injected-fits needle_file needle_rg fi rgi n room))
          (λ state. ih state.0 state.1)

    write_file-NeverPanics :
        (dir : Str) (rgs seed fi : ℕ)
        → NeverPanics (write_file arrow needle_file needle_rg n dir rgs seed fi)
    unfolding write_file
    write_file-NeverPanics dir rgs seed fi =
        NeverPanics-bind _ _ (create_file-NeverPanics (part_path dir fi)) λ u.
          NeverPanics-bind (stay arrow (arrow.writer n)) _ (record { calm = λ d. made })
            λ w.
              NeverPanics-bind _ _
                (write_groups-NeverPanics fi rgs 0 w (Rng.new (file_seed seed fi)))
                λ w'.
                  NeverPanics-bind (try (arrow.close w')) _ (NeverPanics-try _)
                    λ image. put_file-NeverPanics (part_path dir fi) (present image)

    write_files-NeverPanics :
        (dir : Str) (rgs seed left fi : ℕ)
        → NeverPanics (write_files arrow needle_file needle_rg n dir rgs seed left fi)
    unfolding write_files
    write_files-NeverPanics dir rgs seed zero fi = NeverPanics-finish tt
    write_files-NeverPanics dir rgs seed (suc left) fi =
        let ih = write_files-NeverPanics dir rgs seed left (suc fi) in
        NeverPanics-bind _ _ (write_file-NeverPanics dir rgs seed fi) λ u. ih

  -- With at least three rows to a row group, for which the crate makes a writer without a panic,
  -- `write_corpus` never panics.
  pub write_corpus-NeverPanics :
      (dir : Str) (n_files rgs rows seed : ℕ)
      → 3 ≤ rows
      → is_panic (arrow.writer rows) ≡ false
      → NeverPanics (write_corpus arrow dir n_files rgs rows seed)
  unfolding write_corpus
  write_corpus-NeverPanics dir n_files rgs rows seed room made =
      NeverPanics-bind _ _ attempt-NeverPanics λ u.
        write_files-NeverPanics (pred_usize n_files) (pred_usize rgs) rows room made dir rgs seed
          n_files 0
