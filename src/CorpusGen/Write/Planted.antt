-- ===== src/CorpusGen/Write/Planted.antt =====
-- The corpus that `write_corpus` leaves: every file with its row groups and the planted values.
use pdq.Prelude.{
  ℕ, suc, ◌+◌, ◌-◌, ◌<◌, ◌≡◌, refl, ◌∙◌, Option, some, List, [], ◌∷◌, length, get_elem?, arith, All,
}
use pdq.Prelude.Exit.{finished, >>=-finished}
use pdq.Text.{Str}
use pdq.Text.Decimal.{word}
use pdq.Assoc.{lookup, str_key}
use pdq.IndexDir.{present}
use pdq.CorpusGen.Batch.{Columns, Target, src_ip_col, domain_rev_col}
use pdq.CorpusGen.Batch.Cells.{cell, HasRows, planted}
use pdq.CorpusGen.Write.{
  Arrow, Disk, single_needle, prefix_value, domain_value, pred_usize, part_path, multi_ioc,
  injected, attempt, write_corpus,
}
use pdq.CorpusGen.Write.Files.{IsStored, write_files-IsStored}
use pdq.CorpusGen.Write.Groups.{
  IsArrow, AllGroups, AllGroups-get, planted-multi, planted-prefix, planted-needle,
}

-- The row group of that number has the value in that column and row.
abbrev pub IsCell : List Columns → ℕ × Target × ℕ × Str → Type 0
IsCell groups (g, t, row, value) =
    (c : Columns) × (get_elem? groups g ≡ some c) × (cell t row c ≡ some value)

module _ (arrow : Arrow) (laws : IsArrow arrow) (data_dir : Str) where
  module _ (n_files row_groups_per_file rows_per_group seed : ℕ) (d d' : Disk arrow) where
    -- The file `fi` holds so many row groups of so many rows, and the value in the cell of each place
    -- of the list: a row group, a column, a row and the value.
    pub record Holds (fi : ℕ) (places : List (ℕ × Target × ℕ × Str)) : Type 0 where
      pub image : arrow.Image
      pub stored : lookup (part_path data_dir fi) d'.files ≡ some (present image)
      pub count : length (laws.image_groups image) ≡ row_groups_per_file
      pub rows : All (HasRows rows_per_group) (laws.image_groups image)
      pub cells : All (IsCell (laws.image_groups image)) places

    AllGroups-rows :
        (needle_file needle_rg fi rgi : ℕ) (cs : List Columns)
        → AllGroups needle_file needle_rg rows_per_group fi rgi cs
        → All (HasRows rows_per_group) cs
    AllGroups-rows needle_file needle_rg fi rgi [] h = tt
    AllGroups-rows needle_file needle_rg fi rgi (c ∷ cs) (p, h) =
        (p.rows, AllGroups-rows needle_file needle_rg fi (suc rgi) cs h)

    module _ (files_fit : n_files < word) (some_files : 0 < n_files)
        (groups_fit : row_groups_per_file < word) (some_groups : 0 < row_groups_per_file)
        (done : write_corpus arrow data_dir n_files row_groups_per_file rows_per_group seed d
          ≡ (finished tt, d')) where
      abbrev last_group : ℕ
      last_group = row_groups_per_file - 1

      abbrev last_file : ℕ
      last_file = n_files - 1

      all_files-IsStored :
          (fi : ℕ)
          → fi < n_files
          → IsStored arrow laws data_dir last_file last_group rows_per_group row_groups_per_file
              seed fi d'.files
      unfolding write_corpus
      all_files-IsStored fi below =
          let a = >>=-finished (attempt arrow) _ d d' tt done in
          let file : pred_usize n_files ≡ last_file = omega arith in
          let group : pred_usize row_groups_per_file ≡ last_group = omega arith in
          write_files-IsStored arrow laws data_dir last_file last_group rows_per_group
            row_groups_per_file seed n_files 0 fi a.middle d' (omega arith) (omega arith)
            (omega arith) (rw (file, group) at a.second)

      stored-IsCell :
          (fi g : ℕ) (t : Target) (row : ℕ) (value : Str)
          (s : IsStored arrow laws data_dir last_file last_group rows_per_group row_groups_per_file
            seed fi d'.files)
          → g < row_groups_per_file
          → ((old : Option Str)
              → planted t row (injected last_file last_group fi g) old ≡ some value)
          → IsCell (laws.image_groups s.image) (g, t, row, value)
      stored-IsCell fi g t row value s below p =
          let (c, got, group) =
            AllGroups-get last_file last_group rows_per_group fi 0 g (laws.image_groups s.image)
              s.planted_in (rw s.count below) in
          let (old, e) = group.cells t row in
          let here : 0 + g ≡ g = omega arith in (c, got, (rw here at e) ∙ p old)

      holds :
          (fi : ℕ) (places : List (ℕ × Target × ℕ × Str))
          (s : IsStored arrow laws data_dir last_file last_group rows_per_group row_groups_per_file
            seed fi d'.files)
          → All (IsCell (laws.image_groups s.image)) places
          → Holds fi places
      holds fi places s cells = record {
        image = s.image;
        stored = s.stored;
        count = s.count;
        rows = AllGroups-rows last_file last_group fi 0 (laws.image_groups s.image) s.planted_in;
        cells = cells;
      }

      -- If `write_corpus` succeeds, with at least one file and one row group and fewer than 2 ^ 64
      -- of each, every file that it was to write holds so many row groups of so many rows, the
      -- first of them with the file's own address in the first row; the first file holds in its
      -- first row group the prefix sample in the second row and the domain in the first; and the
      -- last file holds in its last row group the single needle in the third row.
      pub write_corpus-Holds :
          (fi : ℕ)
          → fi < n_files
          → Holds fi ((0, src_ip_col, 0, multi_ioc fi) ∷ [])
            × Holds 0 ((0, src_ip_col, 1, prefix_value) ∷ (0, domain_rev_col, 0, domain_value) ∷ [])
            × Holds last_file ((last_group, src_ip_col, 2, single_needle) ∷ [])
      write_corpus-Holds fi below =
          let s = all_files-IsStored fi below in
          let first = all_files-IsStored 0 some_files in
          let last = all_files-IsStored last_file (omega arith) in
          (
            holds fi _ s (
              stored-IsCell fi 0 src_ip_col 0 (multi_ioc fi) s some_groups
                  (planted-multi last_file last_group rows_per_group fi),
              tt,
            ),
            holds 0 _ first (
              stored-IsCell 0 0 src_ip_col 1 prefix_value first some_groups
                  (λ old. (planted-prefix last_file last_group rows_per_group 0 old refl).0),
              (
                stored-IsCell 0 0 domain_rev_col 0 domain_value first some_groups
                    (λ old. (planted-prefix last_file last_group rows_per_group 0 old refl).1),
                tt,
              ),
            ),
            holds last_file _ last (
              stored-IsCell last_file last_group src_ip_col 2 single_needle last (omega arith)
                  (planted-needle last_file last_group),
              tt,
            ),
          )
