-- ===== src/EndToEnd.antt =====
-- From the Parquet file to the engine: what `index_file` wrote is what the searches read.
pub mod Build
pub mod Again
pub mod Listed
pub mod Reopened
use mathlib.Core.Option.{some-injective}
use pdq.Prelude.{ℕ, ◌≤◌, ◌<◌, ◌≡◌, sym, ap, ◌∙◌, some, List, [], ◌∷◌, length}
use pdq.Prelude.Result.{ok}
use pdq.Text.{Str}
use pdq.Text.Decimal.{word, decimal, parse_usize-decimal}
use pdq.Text.Lines.{IsLine}
use pdq.Assoc.{Map, lookup, insert, str_key}
use pdq.Fst.{Fst}
use pdq.IndexDir.{present, HashDir, Node, dir, hash_dir, fst_file}
use pdq.Parquet.{RowGroup, scan_groups}
use pdq.Index.Keys.{index_keys}
use pdq.Index.World.{calculate_file_hash, DataFile, World}
use pdq.Index.Indexer.{index_file}
use pdq.Index.Success.{Indexed, index_file-inv}
use pdq.Index.Fresh.{lines-metadata_content}
use pdq.Query.Search.{search_set}
use pdq.Query.Ranges.{is_exact}
use pdq.Query.FullScan.{IsIndexOf, search_set-eq-scan}
use pdq.Query.Engine.{load_set, open_set, Maps, add_lines, metadata_lines, add_entry, count_line}

module _ (fst : Fst) where
  load_set-present :
      (index_dir : Map Str (Node fst)) (h column : Str) (d : HashDir fst) (image : fst.Image)
      (set : fst.Keys)
      → lookup h index_dir ≡ some (dir d)
      → lookup column d.fsts ≡ some (present image)
      → fst.open_image image ≡ some set
      → load_set fst index_dir h column ≡ ok (some set)
  unfolding load_set
  load_set-present index_dir h column d image set e i o =
      rw (load_set, fst_file, hash_dir, e, i, open_set, o)

  add_lines-recorded :
      (h : Str) (path : Str) (m s n : ℕ) (maps : Maps)
      → n < word
      → add_lines h (path ∷ decimal m ∷ decimal s ∷ decimal n ∷ []) maps
        ≡ (insert h path maps.0, insert h n maps.1)
  unfolding add_lines
  add_lines-recorded h path m s n (paths, counts) fits =
      rw (add_lines, count_line, parse_usize-decimal n fits)

  module _ (hasher : Str → ℕ) (file_path column : Str) (w w' : World fst) (file : DataFile)
      (groups : List RowGroup) (done : index_file fst hasher file_path column w ≡ (ok tt, w'))
      (opened : lookup file_path w.files ≡ some file) (parsed : file.groups ≡ some groups) where
    run : Indexed fst hasher file_path column w w'
    run = index_file-inv fst hasher file_path column w w' done

    same_file : run.file ≡ file
    same_file = some-injective run.file file (sym run.opened ∙ opened)

    same_groups : run.groups ≡ groups
    same_groups =
        some-injective run.groups groups
          (sym run.parsed ∙ ap (λ (f : DataFile). f.groups) same_file ∙ parsed)

    -- If `index_file` succeeds on a file with at most 2 ^ 64 row groups, the engine then loads,
    -- under the hash of the path, an index of the row groups that the file held.
    pub load_set-index_file :
        length groups ≤ word
        → (set : fst.Keys) × (load_set fst w'.index (calculate_file_hash hasher file_path) column
            ≡ ok (some set))
          × IsIndexOf fst set column groups
    load_set-index_file few =
        let x = run.written in
        let (set, o) = fst.build_opens run.keys x.image x.built in
        (
          set,
          load_set-present w'.index (calculate_file_hash hasher file_path) column x.folder x.image
              set x.found x.indexed o,
          record {
            few = few;
            keys = run.keys;
            image = x.image;
            collected = ap (index_keys column) (sym same_groups) ∙ run.collected;
            built = x.built;
            opened = o;
          },
        )

    -- If `index_file` succeeds on a file with at most 2 ^ 64 row groups, the engine then loads an
    -- index for it in which an exact search for any term returns, without an error, the row groups
    -- that a full scan of the column finds to hold the term or a value that begins with the term
    -- and a byte 0.
    pub search-index_file :
        length groups ≤ word
        → (set : fst.Keys) × (load_set fst w'.index (calculate_file_hash hasher file_path) column
            ≡ ok (some set))
          × ((term : Str)
              → search_set fst set term ≡ ok (scan_groups (is_exact term) column 0 groups))
    search-index_file few =
        let (set, loaded, ix) = load_set-index_file few in
        (set, loaded, λ term. search_set-eq-scan fst set column groups ix term)

    -- The folder of the file is read as its path and the number of its row groups.
    pub recorded-index_file :
        length groups < word
        → IsLine file_path
        → (d : HashDir fst) × (lookup (calculate_file_hash hasher file_path) w'.index
            ≡ some (dir d))
          × ((h : Str) (maps : Maps)
              → add_entry fst h (dir d) maps
                ≡ (insert h file_path maps.0, insert h (length groups) maps.1))
    unfolding add_entry
    recorded-index_file few line =
        let x = run.written in
        (
          x.folder,
          x.found,
          λ h maps.
              rw
                (
                  add_entry,
                  x.metadata,
                  metadata_lines,
                  lines-metadata_content file_path x.mtime run.file.size (length run.groups) line,
                  same_groups,
                )
                (add_lines-recorded h file_path x.mtime run.file.size (length groups) maps few),
        )
