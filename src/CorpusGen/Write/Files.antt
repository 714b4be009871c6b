-- ===== src/CorpusGen/Write/Files.antt =====
-- The files that `write_corpus` has closed hold their row groups, and keep them.
use pdq.Prelude.{
  ℕ, zero, suc, ◌+◌, ◌≤◌, ◌<◌, ◌≡◌, ◌≢◌, refl, sym, ap, ◌∙◌, some, List, ◌++◌, length, arith,
  Bool-cases, inl, inr, ◌==◌, ==_iff,
}
use pdq.Prelude.Exit.{finished, try, >>=-finished, try-inv}
use pdq.Text.{Str}
use pdq.Text.Decimal.{word}
use pdq.Assoc.{Map, lookup, insert, lookup-insert, lookup-insert_self, str_key}
use pdq.IndexDir.{OnDisk, unreadable, present}
use pdq.CorpusGen.Rng
use pdq.CorpusGen.Batch.{Columns}
use pdq.CorpusGen.Write.{
  Arrow, Disk, part_path, file_seed, create_file, stay, write_groups, write_file, write_files,
}
use pdq.CorpusGen.Write.Paths.{part_path-differs}
use pdq.CorpusGen.Write.Frame.{create_file-files, put_file-files, write_groups-disk}
use pdq.CorpusGen.Write.Groups.{IsArrow, AllGroups, write_groups-Written}

module _ (arrow : Arrow) (laws : IsArrow arrow) (data_dir : Str) where
  module _ (needle_file needle_rg rows_per_group row_groups_per_file seed : ℕ) where
    -- The file is closed, and holds its row groups.
    pub record IsStored (fi : ℕ) (files : Map Str (OnDisk arrow.Image)) : Type 0 where
      pub image : arrow.Image
      pub stored : lookup (part_path data_dir fi) files ≡ some (present image)
      pub count : length (laws.image_groups image) ≡ row_groups_per_file
      pub planted_in : AllGroups needle_file needle_rg rows_per_group fi 0 (laws.image_groups image)

    -- Whatever the path of another file of the corpus held, it still holds.
    record Change (fi : ℕ) (files files' : Map Str (OnDisk arrow.Image)) : Type 0 where
      pub stored : IsStored fi files'
      others :
          (j : ℕ)
          → j < word
          → fi ≢ j
          → lookup (part_path data_dir j) files' ≡ lookup (part_path data_dir j) files

    lookup-other :
        (fi j : ℕ) (contents : OnDisk arrow.Image) (files : Map Str (OnDisk arrow.Image))
        → fi < word
        → j < word
        → fi ≢ j
        → lookup (part_path data_dir j) (insert (part_path data_dir fi) contents files)
          ≡ lookup (part_path data_dir j) files
    lookup-other fi j contents files p q differ =
        rw (lookup-insert, part_path-differs data_dir fi j p q differ) refl

    write_file-Change :
        (fi : ℕ) (d d' : Disk arrow)
        → fi < word
        → write_file arrow needle_file needle_rg rows_per_group data_dir row_groups_per_file seed fi
            d
          ≡ (finished tt, d')
        → Change fi d.files d'.files
    unfolding write_file
    write_file-Change fi d d' fits e =
        let path = part_path data_dir fi in
        let a = >>=-finished (create_file arrow path) _ d d' tt e in
        let b = >>=-finished (stay arrow (arrow.writer rows_per_group)) _ a.middle d' tt a.second in
        let c =
          >>=-finished
            (write_groups arrow needle_file needle_rg rows_per_group fi row_groups_per_file 0
              b.value (Rng.new (file_seed seed fi)))
            _ b.middle d' tt b.second in
        let i = >>=-finished (try (arrow.close c.value)) _ c.middle d' tt c.second in
        let started = laws.writer-starts rows_per_group b.value (ap (λ q. q.0) b.first) in
        let written =
          write_groups-Written arrow laws needle_file needle_rg rows_per_group fi
            row_groups_per_file 0 b.value c.value (Rng.new (file_seed seed fi)) b.middle c.middle
            (record { idle = started.1; bound = started.2 }) c.first in
        let closed = try-inv (arrow.close c.value) c.middle i.middle i.value i.first in
        let held : laws.image_groups i.value ≡ written.added =
          laws.groups-close c.value i.value written.ready.idle closed.0
          ∙ written.grown
          ∙ ap (λ (x : List Columns). x ++ written.added) started.0 in
        let created = create_file-files arrow path d a.middle a.first in
        let kept : c.middle.files ≡ insert path unreadable d.files =
          sym (
            ap (λ (x : Disk arrow). x.files)
              (ap (λ q. q.1) b.first
                ∙ write_groups-disk arrow needle_file needle_rg rows_per_group fi
                    row_groups_per_file 0 b.value c.value (Rng.new (file_seed seed fi)) b.middle
                    c.middle c.first))
          ∙ created in
        let last : insert path (present i.value) (insert path unreadable d.files) ≡ d'.files =
          ap (insert path (present i.value)) (sym kept ∙ ap (λ (x : Disk arrow). x.files) closed.1)
          ∙ put_file-files arrow path (present i.value) i.middle d' i.second in
        rw (← last) (record {
          stored = record {
            image = i.value;
            stored = lookup-insert_self path (present i.value) (insert path unreadable d.files);
            count = ap length held ∙ written.count;
            planted_in = rw held written.planted_in;
          };
          others = λ j q differ.
              lookup-other fi j (present i.value) (insert path unreadable d.files) fits q differ
              ∙ lookup-other fi j unreadable d.files fits q differ;
        })

    IsStored-kept :
        (j : ℕ) (files files' : Map Str (OnDisk arrow.Image))
        → lookup (part_path data_dir j) files' ≡ lookup (part_path data_dir j) files
        → IsStored j files
        → IsStored j files'
    IsStored-kept j files files' same s = record {
      image = s.image;
      stored = same ∙ s.stored;
      count = s.count;
      planted_in = s.planted_in;
    }

    -- The files before `fi` stay as they are, and those from `fi` on are stored.
    write_files-kept :
        (left fi j : ℕ) (d d' : Disk arrow)
        → fi + left ≤ word
        → j < fi
        → write_files arrow needle_file needle_rg rows_per_group data_dir row_groups_per_file seed
            left fi d
          ≡ (finished tt, d')
        → lookup (part_path data_dir j) d'.files ≡ lookup (part_path data_dir j) d.files
    unfolding write_files
    write_files-kept zero fi j d d' fits below e =
        ap (λ q. lookup (part_path data_dir j) q.1.files) (sym e)
    write_files-kept (suc left) fi j d d' fits below e =
        let ih = write_files-kept left (suc fi) j in
        let a =
          >>=-finished
            (write_file arrow needle_file needle_rg rows_per_group data_dir row_groups_per_file seed
              fi)
            _ d d' tt e in
        let c = write_file-Change fi d a.middle (omega arith) a.first in
        ih a.middle d' (omega arith) (omega arith) a.second
        ∙ c.others j (omega arith) (λ same. omega arith)

    pub write_files-IsStored :
        (left fi j : ℕ) (d d' : Disk arrow)
        → fi + left ≤ word
        → fi ≤ j
        → j < fi + left
        → write_files arrow needle_file needle_rg rows_per_group data_dir row_groups_per_file seed
            left fi d
          ≡ (finished tt, d')
        → IsStored j d'.files
    unfolding write_files
    write_files-IsStored zero fi j d d' fits from below e = absurd (omega arith)
    write_files-IsStored (suc left) fi j d d' fits from below e =
        let ih = write_files-IsStored left (suc fi) j in
        let a =
          >>=-finished
            (write_file arrow needle_file needle_rg rows_per_group data_dir row_groups_per_file seed
              fi)
            _ d d' tt e in
        let c = write_file-Change fi d a.middle (omega arith) a.first in
        elim (Bool-cases (fi == j)) [
          | inl same ↦
              let here : fi ≡ j = (==_iff fi j).0 same in
              let kept =
                write_files-kept left (suc fi) fi a.middle d' (omega arith) (omega arith)
                  a.second in
              rw (← here) (IsStored-kept fi a.middle.files d'.files kept c.stored)
          | inr other ↦ ih a.middle d' (omega arith) (ground arith) (omega arith) a.second
        ]
