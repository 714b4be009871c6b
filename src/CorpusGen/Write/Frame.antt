-- ===== src/CorpusGen/Write/Frame.antt =====
-- The steps of `write_corpus` that change the disk, and those that do not.
use pdq.Prelude.{ℕ, zero, suc, Bool, true, false, ◌≡◌, sym, ap, ◌∙◌, List, [], ◌∷◌}
use pdq.Prelude.Exit.{Exit, failed, stopped, panicked, finished, try, >>=-finished, try-inv}
use pdq.Text.{Str}
use pdq.Assoc.{insert, str_key}
use pdq.IndexDir.{OnDisk, unreadable}
use pdq.CorpusGen.Batch.{Injection, build_batch}
use pdq.CorpusGen.Write.{
  Arrow, Disk, injected, fault, attempt, put_file, create_file, draw, write_group, write_groups,
}

module _ (arrow : Arrow) where
  fault-files :
      (fs : List Bool) (d d' : Disk arrow)
      → fault arrow fs d ≡ (finished tt, d')
      → d.files ≡ d'.files
  unfolding fault
  fault-files [] d d' e = ap (λ q. q.1.files) e
  fault-files (false ∷ fs) d d' e = ap (λ q. q.1.files) e
  fault-files (true ∷ fs) d d' e = absurd (cc)

  pub attempt-files : (d d' : Disk arrow) → attempt arrow d ≡ (finished tt, d') → d.files ≡ d'.files
  unfolding attempt
  attempt-files d d' e = fault-files d.faults d d' e

  pub put_file-files :
      (path : Str) (contents : OnDisk arrow.Image) (d d' : Disk arrow)
      → put_file arrow path contents d ≡ (finished tt, d')
      → insert path contents d.files ≡ d'.files
  unfolding put_file
  put_file-files path contents d d' e = ap (λ q. q.1.files) e

  pub create_file-files :
      (path : Str) (d d' : Disk arrow)
      → create_file arrow path d ≡ (finished tt, d')
      → d'.files ≡ insert path unreadable d.files
  unfolding create_file
  create_file-files path d d' e =
      let a = >>=-finished (attempt arrow) _ d d' tt e in
      sym (
        ap (insert path unreadable) (attempt-files d a.middle a.first)
        ∙ put_file-files path unreadable a.middle d' a.second)

-- Only creating and closing a file changes the disk.
draw-disk :
    (arrow : Arrow) {T : Type 0} (x : Exit T × ℕ) (d d' : Disk arrow) (y : T × ℕ)
    → draw arrow x d ≡ (finished y, d')
    → d ≡ d'
unfolding draw
draw-disk arrow (finished value, rng) d d' y e = cc
draw-disk arrow (failed reason, rng) d d' y e = cc
draw-disk arrow (stopped code, rng) d d' y e = cc
draw-disk arrow (panicked, rng) d d' y e = cc

write_group-disk :
    (arrow : Arrow) (n : ℕ) (is : List Injection) (w : arrow.Writer) (rng : ℕ) (d d' : Disk arrow)
    (y : arrow.Writer × ℕ)
    → write_group arrow n is w rng d ≡ (finished y, d')
    → d ≡ d'
unfolding write_group
write_group-disk arrow n is w rng d d' y e =
    let a = >>=-finished (draw arrow (build_batch arrow.try_new n is rng)) _ d d' y e in
    let b = >>=-finished (try (arrow.write a.value.0 w)) _ a.middle d' y a.second in
    let c = >>=-finished (try (arrow.flush b.value)) _ b.middle d' y b.second in
    draw-disk arrow (build_batch arrow.try_new n is rng) d a.middle a.value a.first
    ∙ (try-inv (arrow.write a.value.0 w) a.middle b.middle b.value b.first).1
    ∙ (try-inv (arrow.flush b.value) b.middle c.middle c.value c.first).1
    ∙ ap (λ q. q.1) c.second

pub write_groups-disk :
    (arrow : Arrow) (needle_file needle_rg n fi left rgi : ℕ) (w w' : arrow.Writer) (rng : ℕ)
    (d d' : Disk arrow)
    → write_groups arrow needle_file needle_rg n fi left rgi w rng d ≡ (finished w', d')
    → d ≡ d'
unfolding write_groups
write_groups-disk arrow needle_file needle_rg n fi zero rgi w w' rng d d' e = ap (λ q. q.1) e
write_groups-disk arrow needle_file needle_rg n fi (suc left) rgi w w' rng d d' e =
    let ih = write_groups-disk arrow needle_file needle_rg n fi left (suc rgi) in
    let is = injected needle_file needle_rg fi rgi in
    let a = >>=-finished (write_group arrow n is w rng) _ d d' w' e in
    write_group-disk arrow n is w rng d a.middle a.value a.first
    ∙ ih a.value.0 w' a.value.1 a.middle d' a.second
