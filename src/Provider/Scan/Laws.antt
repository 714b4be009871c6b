-- ===== src/Provider/Scan/Laws.antt =====
-- What a plan reads: no row group that is out of range, and every row group that pruning keeps of a
-- file that is still there.
use pdq.Prelude.{
  ℕ, ◌<◌, ◌≡◌, refl, Bool, true, false, ◌&&◌, Option, none, some, List, [], ◌∷◌, arith, All, any,
  filter, ltb, ltb→lt, lt→ltb, is_empty, Bool-cases, inl, inr,
}
use pdq.Prelude.Result.{ok, >>=-eq-ok}
use pdq.Text.{Str, str_eq, str_eq_iff, str_eq_refl}
use pdq.Assoc.{Map, lookup, str_key}
use pdq.RowSet.{contains}
use pdq.Query.Engine.{Engine}
use pdq.Provider.Prune.Laws.{contains-filter}
use pdq.Provider.Prune.Needs.{contains-not_empty}
use pdq.Provider.Scan.{
  Disk, ScanFile, with_file, plan_groups, plan_canonical, plan_path, plan_file, with_option,
  plan_files, row_group_count,
}

-- The plan of a file scans some row group, and only such as the file has.
pub record IsInRange (f : ScanFile) : Type 0 where
  pub some_scanned : is_empty f.scanned ≡ false
  pub below : All (λ g. g < f.total) f.scanned

-- The plan reads this row group of the file at this path.
abbrev pub reads : Str → ℕ → ScanFile → Bool
reads path g f = str_eq f.path path && contains g f.scanned

filter-below : (n : ℕ) (gs : List ℕ) → All (λ g. g < n) (filter (λ g. ltb g n) gs)
filter-below n [] = tt
filter-below n (g ∷ gs) = elim (Bool-cases (ltb g n)) [
  | inl t ↦ rw t (ltb→lt g n t, filter-below n gs)
  | inr f ↦ rw f (filter-below n gs)
]

abbrev AllInRange : Option ScanFile → Type 0
AllInRange none = Unit
AllInRange (some f) = IsInRange f

module _ (disk : Disk) (e : Engine) where
  with_file-AllInRange :
      (size total : ℕ) (scanned : List ℕ) (o : Option Str)
      → is_empty scanned ≡ false
      → All (λ g. g < total) scanned
      → AllInRange (with_file disk e size total scanned o)
  with_file-AllInRange size total scanned none h b = tt
  with_file-AllInRange size total scanned (some path) h b = record { some_scanned = h; below = b }

  plan_groups-AllInRange :
      (path : Str) (gs : List ℕ) (total : ℕ) → AllInRange (plan_groups disk e path gs total)
  unfolding plan_groups
  plan_groups-AllInRange path gs total =
      elim (Bool-cases (is_empty (filter (λ g. ltb g total) gs))) [
        | inl none_left ↦ rw (plan_groups, none_left) tt
        | inr left ↦
            rw (plan_groups, left)
              (with_file-AllInRange _ total (filter (λ g. ltb g total) gs) _ left
                (filter-below total gs))
      ]

  plan_canonical-AllInRange :
      (h : Str) (gs : List ℕ) (c : Option Str) (f : Option ScanFile)
      → plan_canonical disk e h gs c ≡ ok f
      → AllInRange f
  unfolding plan_canonical
  plan_canonical-AllInRange h gs none none done = tt
  plan_canonical-AllInRange h gs none (some f) done = cc
  plan_canonical-AllInRange h gs (some c) f done =
      let (total, counted, last) = >>=-eq-ok (row_group_count disk e h c) _ done in
      let q : plan_groups disk e c gs total ≡ f = (let l = last in cc) in
      rw (← q) (plan_groups-AllInRange c gs total)

  plan_path-AllInRange :
      (h : Str) (gs : List ℕ) (p : Option Str) (f : Option ScanFile)
      → plan_path disk e h gs p ≡ ok f
      → AllInRange f
  unfolding plan_path
  plan_path-AllInRange h gs none none done = tt
  plan_path-AllInRange h gs none (some f) done = cc
  plan_path-AllInRange h gs (some p) f done =
      plan_canonical-AllInRange h gs (disk.canonicalize p) f done

  plan_file-AllInRange :
      (paths : Map Str Str) (h : Str) (gs : List ℕ) (f : Option ScanFile)
      → plan_file disk e paths h gs ≡ ok f
      → AllInRange f
  unfolding plan_file
  plan_file-AllInRange paths h [] none done = tt
  plan_file-AllInRange paths h [] (some f) done = cc
  plan_file-AllInRange paths h (g ∷ gs) f done =
      plan_path-AllInRange h (g ∷ gs) (lookup h paths) f done

  All-with_option :
      (f : Option ScanFile) (files : List ScanFile)
      → AllInRange f
      → All IsInRange files
      → All IsInRange (with_option disk e f files)
  All-with_option none files h hs = hs
  All-with_option (some f) files h hs = (h, hs)

  -- If planning succeeds, every file of the plan has some row group to scan, and each of them is
  -- below the number of row groups that its access plan was made for.
  pub plan_files-AllInRange :
      (paths : Map Str Str) (groups : Map Str (List ℕ)) (files : List ScanFile)
      → plan_files disk e paths groups ≡ ok files
      → All IsInRange files
  unfolding plan_files
  plan_files-AllInRange paths [] [] done = tt
  plan_files-AllInRange paths [] (f ∷ files) done = cc
  plan_files-AllInRange paths ((h, gs) ∷ rest) files done =
      let ih = plan_files-AllInRange paths rest in
      let (f, planned, more) = >>=-eq-ok (plan_file disk e paths h gs) _ done in
      let (fs, others, last) = >>=-eq-ok (plan_files disk e paths rest) _ more in
      let q : with_option disk e f fs ≡ files = (let l = last in cc) in
      rw (← q) (All-with_option f fs (plan_file-AllInRange paths h gs f planned) (ih fs others))

  any-with_option :
      (q : ScanFile → Bool) (f : Option ScanFile) (files : List ScanFile)
      → any q files ≡ true
      → any q (with_option disk e f files) ≡ true
  any-with_option q none files h = h
  any-with_option q (some f) files h = ground arith

  module _ (paths : Map Str Str) (file_hash path canonical object : Str) (total g : ℕ)
      (known : lookup file_hash paths ≡ some path) (there : disk.canonicalize path ≡ some canonical)
      (counted : row_group_count disk e file_hash canonical ≡ ok total)
      (stored : disk.object_store_path canonical ≡ some object) (below : g < total) where
    plan_groups-reads :
        (gs : List ℕ)
        → contains g gs ≡ true
        → (fs : List ScanFile)
        → any (reads object g) (with_option disk e (plan_groups disk e canonical gs total) fs)
          ≡ true
    unfolding plan_groups
    plan_groups-reads gs held fs =
        let c = contains-filter g (λ x. ltb x total) gs in
        let c' = rw (held, lt→ltb g total below) at c in
        rw (plan_groups, contains-not_empty g (filter (λ x. ltb x total) gs) c', stored)
          (rw (str_eq_refl object, c') refl)

    plan_file-reads :
        (gs : List ℕ)
        → contains g gs ≡ true
        → plan_file disk e paths file_hash gs ≡ ok (plan_groups disk e canonical gs total)
    unfolding plan_file plan_path plan_canonical
    plan_file-reads [] held = cc
    plan_file-reads (x ∷ xs) held =
        rw (plan_file, known, plan_path, there, plan_canonical, counted) refl

    -- If planning succeeds, every row group that pruning keeps of a file is read, provided that
    -- the path recorded for the file can be made canonical and names an object, and that the row
    -- group is below the number of row groups recorded, or found in the footer, for the file.
    pub plan_files-reads :
        (groups : Map Str (List ℕ)) (gs : List ℕ) (files : List ScanFile)
        → lookup file_hash groups ≡ some gs
        → contains g gs ≡ true
        → plan_files disk e paths groups ≡ ok files
        → any (reads object g) files ≡ true
    unfolding plan_files lookup
    plan_files-reads [] gs files found held done = cc
    plan_files-reads ((h, hs) ∷ rest) gs files found held done =
        let ih = plan_files-reads rest gs in
        let (f, planned, more) = >>=-eq-ok (plan_file disk e paths h hs) _ done in
        let (fs, others, last) = >>=-eq-ok (plan_files disk e paths rest) _ more in
        let q : with_option disk e f fs ≡ files = (let l = last in cc) in
        elim (Bool-cases (str_eq h file_hash)) [
          | inl same ↦
              let p : h ≡ file_hash = (str_eq_iff h file_hash).0 same in
              let r : hs ≡ gs = (let x = rw same at found in cc) in
              let planned' = rw (p, r, plan_file-reads gs held) at planned in
              let fe : plan_groups disk e canonical gs total ≡ f = (let x = planned' in cc) in
              rw (← q, ← fe) (plan_groups-reads gs held fs)
          | inr other ↦
              let found' = rw other at found in
              rw (← q) (any-with_option (reads object g) f fs (ih fs found' held others))
        ]
