-- ===== src/CorpusGen/Write/Groups.antt =====
-- The row groups of one file of the corpus: what was planted in them, and what the file holds.
use pdq.Prelude.{
  ℕ, zero, suc, ◌+◌, ◌≤◌, ◌<◌, ◌≡◌, refl, sym, ap, ◌∙◌, Bool, false, ◌&&◌, Option, some, List, [],
  ◌∷◌, ◌++◌, append_assoc, append-nil, length, get_elem?, ◌==◌, ==_refl, Bool-cases, inl, inr,
  arith,
}
use pdq.Prelude.Result.{ok}
use pdq.Prelude.Exit.{
  Exit, finished, failed, stopped, panicked, try, >>=-finished, finish-inv, try-inv,
}
use pdq.Text.{Str}
use pdq.CorpusGen.Batch.{
  Columns, Injection, Target, src_ip_col, domain_rev_col, target_of, build_batch,
}
use pdq.CorpusGen.Batch.Cells.{cell, HasRows, planted}
use pdq.CorpusGen.Batch.Built.{build_batch-inv}
use pdq.CorpusGen.Write.{
  Arrow, Disk, single_needle, prefix_value, domain_value, multi_ioc, injected, draw, write_group,
  write_groups,
}

-- What the crates document of the calls that `write_corpus` makes.
pub record IsArrow (arrow : Arrow) : Type 0 where
  -- the columns of a batch
  pub columns : arrow.Batch → Columns
  pub columns-try_new :
      (c : Columns) (batch : arrow.Batch) → arrow.try_new c ≡ ok batch → columns batch ≡ c
  -- the row groups written so far, whether rows wait for a flush, the bound on rows in a row group
  pub groups : arrow.Writer → List Columns
  pub is_waiting : arrow.Writer → Bool
  pub limit : arrow.Writer → ℕ
  pub writer-starts :
      (n : ℕ) (w : arrow.Writer)
      → arrow.writer n ≡ finished w
      → (groups w ≡ []) × (is_waiting w ≡ false) × (limit w ≡ n)
  -- A batch that is no larger than the bound, written and flushed, is a row group.
  pub flush-write :
      (batch : arrow.Batch) (w w' w'' : arrow.Writer)
      → is_waiting w ≡ false
      → length (columns batch).bytes ≤ limit w
      → arrow.write batch w ≡ ok w'
      → arrow.flush w' ≡ ok w''
      → (groups w'' ≡ groups w ++ columns batch ∷ [])
        × (is_waiting w'' ≡ false)
        × (limit w'' ≡ limit w)
  -- A file that was closed holds the row groups.
  pub image_groups : arrow.Image → List Columns
  pub groups-close :
      (w : arrow.Writer) (image : arrow.Image)
      → is_waiting w ≡ false
      → arrow.close w ≡ ok image
      → image_groups image ≡ groups w

module _ (needle_file needle_rg rows_per_group fi : ℕ) where
  -- The row group has the planted values of its file and position.
  pub record IsGroup (rgi : ℕ) (c : Columns) : Type 0 where
    pub rows : HasRows rows_per_group c
    pub cells :
        (t : Target) (k : ℕ)
        → (old : Option Str) × (cell t k c
            ≡ planted t k (injected needle_file needle_rg fi rgi) old)

  -- The row groups, counted from `rgi`.
  abbrev pub AllGroups : ℕ → List Columns → Type 0
  AllGroups rgi [] = Unit
  AllGroups rgi (c ∷ cs) = IsGroup rgi c × AllGroups (suc rgi) cs

  pub AllGroups-get :
      (rgi g : ℕ) (cs : List Columns)
      → AllGroups rgi cs
      → g < length cs
      → (c : Columns) × (get_elem? cs g ≡ some c) × IsGroup (rgi + g) c
  AllGroups-get rgi g [] h lt = absurd (omega arith)
  AllGroups-get rgi zero (c ∷ cs) (p, h) lt =
      (c, refl, (let e : rgi + 0 ≡ rgi = omega arith in rw e p))
  AllGroups-get rgi (suc g) (c ∷ cs) (p, h) lt =
      let (d, got, q) = AllGroups-get (suc rgi) g cs h (omega arith) in
      (d, got, (let e : rgi + suc g ≡ suc rgi + g = omega arith in rw e q))

  -- The values that are planted at these positions, whatever was there.
  pub planted-multi :
      (old : Option Str)
      → planted src_ip_col 0 (injected needle_file needle_rg fi 0) old ≡ some (multi_ioc fi)
  unfolding injected target_of
  planted-multi old = elim (Bool-cases (fi == 0)) [
    | inl first ↦ elim (Bool-cases (fi == needle_file && 0 == needle_rg)) [
      | inl last ↦ rw (first, last) refl
      | inr other ↦ rw (first, other) refl
    ]
    | inr later ↦ elim (Bool-cases (fi == needle_file && 0 == needle_rg)) [
      | inl last ↦ rw (later, last) refl
      | inr other ↦ rw (later, other) refl
    ]
  ]

  pub planted-prefix :
      (old : Option Str)
      → fi ≡ 0
      → (planted src_ip_col 1 (injected needle_file needle_rg fi 0) old ≡ some prefix_value)
        × (planted domain_rev_col 0 (injected needle_file needle_rg fi 0) old ≡ some domain_value)
  unfolding injected target_of
  planted-prefix old e = rw e (elim (Bool-cases (0 == needle_file && 0 == needle_rg)) [
    | inl last ↦ rw last (refl, refl)
    | inr other ↦ rw other (refl, refl)
  ])

pub planted-needle :
    (needle_file needle_rg : ℕ) (old : Option Str)
    → planted src_ip_col 2 (injected needle_file needle_rg needle_file needle_rg) old
      ≡ some single_needle
unfolding injected target_of
planted-needle needle_file needle_rg old =
    rw (==_refl needle_file, ==_refl needle_rg)
      (elim (Bool-cases (needle_rg == 0)) [
        | inl first ↦ elim (Bool-cases (needle_file == 0)) [
          | inl one ↦ rw (first, one) refl
          | inr more ↦ rw (first, more) refl
        ]
        | inr later ↦ elim (Bool-cases (needle_file == 0)) [
          | inl one ↦ rw (later, one) refl
          | inr more ↦ rw (later, more) refl
        ]
      ])

module _ (arrow : Arrow) (laws : IsArrow arrow) where
  open laws use {groups, is_waiting, limit, image_groups}

  draw-inv :
      {T : Type 0} (x : Exit T × ℕ) (d d' : Disk arrow) (y : T × ℕ)
      → draw arrow x d ≡ (finished y, d')
      → x ≡ (finished y.0, y.1)
  unfolding draw
  draw-inv (finished value, rng) d d' y e = cc
  draw-inv (failed reason, rng) d d' y e = cc
  draw-inv (stopped code, rng) d d' y e = cc
  draw-inv (panicked, rng) d d' y e = cc

  -- The writer has no rows that wait, and makes row groups of up to so many rows.
  pub record IsReady (rows_per_group : ℕ) (w : arrow.Writer) : Type 0 where
    pub idle : is_waiting w ≡ false
    pub bound : limit w ≡ rows_per_group

  -- One round adds one row group.
  record Grown (rows_per_group : ℕ) (is : List Injection) (w w' : arrow.Writer) : Type 0 where
    batch : Columns
    added : groups w' ≡ groups w ++ batch ∷ []
    ready : IsReady rows_per_group w'
    rows : HasRows rows_per_group batch
    cells : (t : Target) (k : ℕ) → (old : Option Str) × (cell t k batch ≡ planted t k is old)

  write_group-Grown :
      (n : ℕ) (is : List Injection) (w : arrow.Writer) (rng : ℕ) (d d' : Disk arrow)
      (y : arrow.Writer × ℕ)
      → IsReady n w
      → write_group arrow n is w rng d ≡ (finished y, d')
      → Grown n is w y.0
  unfolding write_group
  write_group-Grown n is w rng d d' y ready e =
      let a = >>=-finished (draw arrow (build_batch arrow.try_new n is rng)) _ d d' y e in
      let b = >>=-finished (try (arrow.write a.value.0 w)) _ a.middle d' y a.second in
      let c = >>=-finished (try (arrow.flush b.value)) _ b.middle d' y b.second in
      let same = finish-inv _ _ _ _ c.second in
      let built =
        build_batch-inv arrow.try_new n is rng a.value.1 a.value.0
          (draw-inv (build_batch arrow.try_new n is rng) d a.middle a.value a.first) in
      let made = laws.columns-try_new built.columns a.value.0 built.made in
      let grown =
        laws.flush-write a.value.0 w b.value c.value ready.idle
          (rw (made, built.rows.numbers, ready.bound) (omega arith))
          (try-inv (arrow.write a.value.0 w) a.middle b.middle b.value b.first).0
          (try-inv (arrow.flush b.value) b.middle c.middle c.value c.first).0 in
      rw (← same) (record {
        batch = built.columns;
        added = grown.0 ∙ ap (λ (x : Columns). groups w ++ x ∷ []) made;
        ready = record { idle = grown.1; bound = grown.2 ∙ ready.bound };
        rows = built.rows;
        cells = built.cells;
      })

  module _ (needle_file needle_rg rows_per_group fi : ℕ) where
    -- The rounds that are left add as many row groups.
    pub record Written (left rgi : ℕ) (w w' : arrow.Writer) : Type 0 where
      pub added : List Columns
      pub grown : groups w' ≡ groups w ++ added
      pub count : length added ≡ left
      pub planted_in : AllGroups needle_file needle_rg rows_per_group fi rgi added
      pub ready : IsReady rows_per_group w'

    pub write_groups-Written :
        (left rgi : ℕ) (w w' : arrow.Writer) (rng : ℕ) (d d' : Disk arrow)
        → IsReady rows_per_group w
        → write_groups arrow needle_file needle_rg rows_per_group fi left rgi w rng d
          ≡ (finished w', d')
        → Written left rgi w w'
    unfolding write_groups
    write_groups-Written zero rgi w w' rng d d' ready e =
        let same = finish-inv _ _ _ _ e in
        rw (← same) (record {
          added = [];
          grown = sym (append-nil (groups w));
          count = refl;
          planted_in = tt;
          ready = ready;
        })
    write_groups-Written (suc left) rgi w w' rng d d' ready e =
        let ih = write_groups-Written left (suc rgi) in
        let is = injected needle_file needle_rg fi rgi in
        let a = >>=-finished (write_group arrow rows_per_group is w rng) _ d d' w' e in
        let g = write_group-Grown rows_per_group is w rng d a.middle a.value ready a.first in
        let r = ih a.value.0 w' a.value.1 a.middle d' g.ready a.second in
        record {
          added = g.batch ∷ r.added;
          grown =
              r.grown
              ∙ ap (λ (x : List Columns). x ++ r.added) g.added
              ∙ append_assoc (groups w) (g.batch ∷ []) r.added;
          count = omega (arith, r.count);
          planted_in = (record { rows = g.rows; cells = g.cells }, r.planted_in);
          ready = r.ready;
        }
