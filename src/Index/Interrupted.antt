-- ===== src/Index/Interrupted.antt =====
-- What `index_file` leaves when the last of its writes fails.
use pdq.Prelude.{ℕ, ◌<◌, ◌≡◌, refl, false, true, Bool, some, List, ◌∷◌, length}
use pdq.Prelude.Exec.{◌>>◌}
use pdq.Prelude.Result.{ok, err, io, bad_fst}
use pdq.Text.{Str}
use pdq.Text.Decimal.{word}
use pdq.Text.Lines.{IsLine}
use pdq.Assoc.{Map, lookup, insert, lookup-insert_self, str_key}
use pdq.Fst.{Fst}
use pdq.IndexDir.{present, HashDir, dir, IndexDir, hash_dir, fst_file}
use pdq.Parquet.{RowGroup}
use pdq.Index.Keys.{index_keys}
use pdq.Index.World.{
  calculate_file_hash, DataFile, World, fault, attempt, ensure_dir, create_hash_dir, change_node,
  change_dir, set_node, write_metadata, write_fst,
}
use pdq.Index.Metadata.{metadata_content, needs_indexing, ok_or}
use pdq.Index.Indexer.{write_index, fill_fst, index_file}
use pdq.Index.Fresh.{compare_metadata-same}
use pdq.Query.Engine.{load_set, open_set}

module _ (fst : Fst) (hasher : Str → ℕ) (file_path column : Str) (files : Map Str DataFile)
    (index : IndexDir fst) (later : List Bool) (file : DataFile) (mtime : ℕ)
    (groups : List RowGroup) (keys : List Str) (d : HashDir fst)
    (opened : lookup file_path files ≡ some file) (parsed : file.groups ≡ some groups)
    (collected : index_keys column groups ≡ ok keys) (time_read : file.mtime ≡ some mtime)
    (folder : lookup (calculate_file_hash hasher file_path) index ≡ some (dir d)) where
  -- Three writes succeed and the fourth fails.
  abbrev pub interrupted : World fst
  interrupted = record {
    files = files;
    index = index;
    faults = false ∷ false ∷ false ∷ true ∷ later;
  }

  with_metadata : HashDir fst
  with_metadata = record d {
    metadata = present (metadata_content file_path mtime file.size (length groups));
  }

  left : HashDir fst
  left = record with_metadata { fsts = insert column (present fst.truncated) d.fsts }

  -- The writes from that of `metadata.txt` on.
  writes-left :
      (h : Str)
      → lookup h index ≡ some (dir d)
      → (do
        attempt fst
        write_metadata fst h (metadata_content file_path mtime file.size (length groups))
        attempt fst
        write_fst fst h column fst.truncated
        attempt fst
        fill_fst fst h column (fst.build keys))
          (record { files = files; index = index; faults = false ∷ false ∷ true ∷ later })
        ≡ (
          err io,
          record {
            files = files;
            index = insert h (dir left) (insert h (dir with_metadata) index);
            faults = later;
          },
        )
  unfolding attempt fault change_node change_dir set_node write_metadata write_fst left
      with_metadata
  writes-left h e =
      rw (write_metadata, change_dir, e, change_node)
        (rw (write_fst, change_dir, lookup-insert_self h (dir with_metadata) index) refl)

  index_file-left : index_file fst hasher file_path column interrupted ≡ (
    err io,
    record {
      files = files;
      index =
          insert
            (calculate_file_hash hasher file_path)
            (dir left)
            (insert (calculate_file_hash hasher file_path) (dir with_metadata) index);
      faults = later;
    },
  )
  unfolding index_file write_index attempt fault ensure_dir create_hash_dir change_node change_dir
      set_node write_metadata write_fst ok_or left with_metadata
  index_file-left =
      let h = calculate_file_hash hasher file_path in
      rw (index_file, opened, ok_or, parsed, collected)
        (rw (write_index, attempt, create_hash_dir, folder, ensure_dir, time_read, ok_or)
          (writes-left h folder))

  abbrev pub world_left : World fst
  world_left = (index_file fst hasher file_path column interrupted).1

  -- If the folder of the file is there and only the last of the four writes of `index_file`
  -- fails, it returns the error and leaves an index that does not open; yet the file, on a path
  -- that is one line and with a time and a size that fit 64 bits, is taken to be up to date, so
  -- indexing it again does not repair the index.
  pub index_file-interrupted :
      IsLine file_path
      → mtime < word
      → file.size < word
      → ((index_file fst hasher file_path column interrupted).0 ≡ err io)
        × (load_set fst world_left.index (calculate_file_hash hasher file_path) column
            ≡ err bad_fst)
        × (needs_indexing fst hasher world_left file_path column ≡ ok false)
  unfolding load_set fst_file hash_dir needs_indexing left with_metadata index_file
  index_file-interrupted line time_fits size_fits =
      let h = calculate_file_hash hasher file_path in
      let there = lookup-insert_self h (dir left) (insert h (dir with_metadata) index) in
      let indexed = lookup-insert_self column (present fst.truncated) d.fsts in
      rw (index_file-left) (
        refl,
        (rw (load_set, fst_file, hash_dir, there, indexed, open_set, fst.truncated_opens) refl),
        (rw (needs_indexing, fst_file, hash_dir, there, indexed, opened)
            (compare_metadata-same fst hasher file file_path mtime (length groups) time_read line
              time_fits size_fits)),
      )
