-- ===== src/BloomProbe/Batch.antt =====
-- The batch probe against one probe for each value.
use pdq.Prelude.{
  ℕ, suc, ◌+◌, ◌*◌, ◌≡◌, refl, ap, ◌∙◌, Bool, true, false, not, ◌||◌, Option, none, some, List, [],
  ◌∷◌, if◌then◌else◌, map, is_empty, arith, length,
}
use pdq.Prelude.Result.{Result, ok, err}
use pdq.Text.{Str}
use pdq.BloomProbe.{
  fetch_add, Group, no_reader, reader, ProbedFile, column_index, may_hold, probe_groups,
  probe_bloom, mark, mark_group, mark_groups, count_hits, probe_blooms_multi,
}

module _ (Filter : Type 0) (check : Filter → Str → Bool) where
  -- Whether some row group may hold the value.
  abbrev any_may_hold : ℕ → List (Group Filter check) → Str → Bool
  any_may_hold col [] value = false
  any_may_hold col (no_reader ∷ gs) value = any_may_hold col gs value
  any_may_hold col (reader n filters ∷ gs) value =
      may_hold Filter check value (filters col) || any_may_hold col gs value

  -- Every row group has a reader.
  abbrev pub has_readers : List (Group Filter check) → Bool
  has_readers [] = true
  has_readers (no_reader ∷ gs) = false
  has_readers (reader n filters ∷ gs) = has_readers gs

  not_empty-if :
      (b : Bool) (rg : ℕ) (rest : List ℕ)
      → not (is_empty (if b then rg ∷ rest else rest)) ≡ (b || not (is_empty rest))
  not_empty-if true rg rest = refl
  not_empty-if false rg rest = refl

  -- The counter after the row groups were read.
  abbrev pub bytes_after : ℕ → List (Group Filter check) → ℕ
  bytes_after bytes [] = bytes
  bytes_after bytes (no_reader ∷ gs) = bytes_after bytes gs
  bytes_after bytes (reader n filters ∷ gs) = bytes_after (fetch_add bytes n) gs

  -- The bytes that are read to open the file and to read all its filters.
  abbrev pub bytes_read : ProbedFile Filter check → ℕ
  bytes_read file = bytes_after (fetch_add 0 file.opening) file.groups

  probe_groups-found :
      (col : ℕ) (value : Str) (rg : ℕ) (gs : List (Group Filter check)) (bytes : ℕ)
      → has_readers gs ≡ true
      → (rgs : List ℕ) × (probe_groups Filter check col value rg gs bytes
          ≡ ok (rgs, bytes_after bytes gs))
        × (not (is_empty rgs) ≡ any_may_hold col gs value)
  unfolding probe_groups
  probe_groups-found col value rg [] bytes h = ([], refl, refl)
  probe_groups-found col value rg (no_reader ∷ gs) bytes h = cc
  probe_groups-found col value rg (reader n filters ∷ gs) bytes h =
      let (rest, done, same) = probe_groups-found col value (suc rg) gs (fetch_add bytes n) h in
      let here = may_hold Filter check value (filters col) in
      (
        (if here then rg ∷ rest else rest),
        (rw (probe_groups, done) refl),
        not_empty-if here rg rest ∙ ap (◌||◌ here) same,
      )

  abbrev marked : ℕ → List (Group Filter check) → List (Str × Bool) → List (Str × Bool)
  marked col gs [] = []
  marked col gs ((value, hit) ∷ hits) =
      (value, hit || any_may_hold col gs value) ∷ marked col gs hits

  marked-nil : (col : ℕ) (hits : List (Str × Bool)) → hits ≡ marked col [] hits
  marked-nil col [] = refl
  marked-nil col ((value, true) ∷ hits) = ap (◌∷◌ (value, true)) (marked-nil col hits)
  marked-nil col ((value, false) ∷ hits) = ap (◌∷◌ (value, false)) (marked-nil col hits)

  mark-or :
      (sbbf : Filter) (value : Str) (hit later : Bool)
      → ((mark Filter check sbbf (value, hit)).1 || later) ≡ (hit || (check sbbf value || later))
  mark-or sbbf value hit later = ground arith

  marked-mark :
      (col : ℕ) (f : Option Filter) (gs : List (Group Filter check)) (hits : List (Str × Bool))
      (filters : ℕ → Option Filter)
      → filters col ≡ f
      → marked col gs (mark_group Filter check f hits) ≡ marked col (reader 0 filters ∷ gs) hits
  marked-mark col none gs [] filters e = refl
  marked-mark col (some sbbf) gs [] filters e = refl
  marked-mark col none gs ((value, hit) ∷ hits) filters e =
      rw e (
        ap (◌∷◌ (value, hit || any_may_hold col gs value)) (marked-mark col none gs hits filters e))
  marked-mark col (some sbbf) gs ((value, hit) ∷ hits) filters e =
      let rest = marked-mark col (some sbbf) gs hits filters e in
      rw (e, mark-or sbbf value hit (any_may_hold col gs value))
        (ap (◌∷◌ (value, hit || (check sbbf value || any_may_hold col gs value))) rest)

  mark_groups-marked :
      (col : ℕ) (gs : List (Group Filter check)) (hits : List (Str × Bool)) (bytes : ℕ)
      → has_readers gs ≡ true
      → mark_groups Filter check col gs hits bytes ≡ ok (marked col gs hits, bytes_after bytes gs)
  unfolding mark_groups
  mark_groups-marked col [] hits bytes h =
      ap (λ (x : List (Str × Bool)). ok (x, bytes)) (marked-nil col hits)
  mark_groups-marked col (no_reader ∷ gs) hits bytes h = cc
  mark_groups-marked col (reader n filters ∷ gs) hits bytes h =
      mark_groups-marked col gs (mark_group Filter check (filters col) hits) (fetch_add bytes n) h
      ∙ ap (λ (x : List (Str × Bool)). ok (x, bytes_after (fetch_add bytes n) gs))
          (marked-mark col (filters col) gs hits filters refl)

  -- One for a probe that found some row group.
  abbrev pub hit_of : Result (List ℕ × ℕ) → ℕ
  hit_of (err e) = 0
  hit_of (ok (rgs, bytes)) = if not (is_empty rgs) then 1 else 0

  -- The bytes that a probe read.
  abbrev pub bytes_of : Result (List ℕ × ℕ) → ℕ
  bytes_of (err e) = 0
  bytes_of (ok (rgs, bytes)) = bytes

  -- One probe for each value: how many found some row group, and the bytes read by all of them.
  abbrev pub count_probes : ProbedFile Filter check → Str → List Str → ℕ
  count_probes file column [] = 0
  count_probes file column (v ∷ vs) =
      hit_of (probe_bloom Filter check file column v) + count_probes file column vs

  abbrev pub bytes_of_probes : ProbedFile Filter check → Str → List Str → ℕ
  bytes_of_probes file column [] = 0
  bytes_of_probes file column (v ∷ vs) =
      bytes_of (probe_bloom Filter check file column v) + bytes_of_probes file column vs

  module _ (file : ProbedFile Filter check) (column : Str) (i : ℕ)
      (known : column_index Filter check column file.columns ≡ some i)
      (readable : has_readers file.groups ≡ true) where
    probe_bloom-once :
        (v : Str)
        → (hit_of (probe_bloom Filter check file column v)
            ≡ (if any_may_hold i file.groups v then 1 else 0))
          × (bytes_of (probe_bloom Filter check file column v) ≡ bytes_read file)
    unfolding probe_bloom
    probe_bloom-once v =
        let (rgs, done, same) =
          probe_groups-found i v 0 file.groups (fetch_add 0 file.opening) readable in
        rw (probe_bloom, known, done, same) (refl, refl)

    count_hits-probes :
        (vs : List Str)
        → count_hits Filter check (marked i file.groups (map (λ v. (v, false)) vs))
          ≡ count_probes file column vs
    count_hits-probes [] = refl
    count_hits-probes (v ∷ vs) = rw ((probe_bloom-once v).0) (ap (◌+◌ _) (count_hits-probes vs))

    bytes_of_probes-mul :
        (vs : List Str) → bytes_of_probes file column vs ≡ length vs * bytes_read file
    bytes_of_probes-mul [] = omega arith
    bytes_of_probes-mul (v ∷ vs) = rw ((probe_bloom-once v).1, bytes_of_probes-mul vs) (grind arith)

    -- Where the file has the column and every row group can be opened: the batch probe returns the
    -- number of values, repetitions counted, for which a probe of its own finds some row group; it
    -- reads the same bytes whatever the values, and one probe for each value reads in all as many
    -- times these bytes as there are values.
    pub probe_blooms_multi-eq :
        (values : List Str)
        → (probe_blooms_multi Filter check file column values
            ≡ ok (count_probes file column values, bytes_read file))
          × (bytes_of_probes file column values ≡ length values * bytes_read file)
    unfolding probe_blooms_multi
    probe_blooms_multi-eq values = (
      rw
          (
            probe_blooms_multi,
            known,
            mark_groups-marked i file.groups (map (λ v. (v, false)) values)
                (fetch_add 0 file.opening) readable,
          )
          (ap (λ (n : ℕ). ok (n, bytes_read file)) (count_hits-probes values)),
      bytes_of_probes-mul values,
    )
