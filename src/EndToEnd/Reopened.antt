-- ===== src/EndToEnd/Reopened.antt =====
-- What `new` reads back of an index directory into which `index_file` wrote.
use mathlib.Core.Option.{some-injective}
use pdq.Prelude.{
  ℕ, ◌<◌, ◌≡◌, refl, ap, ◌∙◌, false, Option, none, some, List, [], ◌∷◌, length, Bool-cases, inl,
  inr,
}
use pdq.Prelude.Result.{ok}
use pdq.Text.{Str, str_eq, str_eq_iff, str_eq_refl}
use pdq.Text.Lines.{IsLine}
use pdq.Assoc.{Map, lookup, lookup-insert, str_key}
use pdq.Fst.{Fst}
use pdq.IndexDir.{IndexDir, HashDir, Node, plain, dir}
use pdq.Parquet.{RowGroup}
use pdq.Text.Decimal.{word}
use pdq.Index.World.{calculate_file_hash, DataFile, World}
use pdq.Index.Indexer.{index_file}
use pdq.Query.Engine.{
  Maps, add_counts, add_lines, count_line, metadata_lines, add_entry, build_maps, build_file_map,
  new, num_row_groups,
}
use pdq.EndToEnd.{recorded-index_file}

module _ (fst : Fst) where
  -- A directory has one entry for a name.
  abbrev pub HasDistinctNames : IndexDir fst → Type 0
  HasDistinctNames [] = Unit
  HasDistinctNames ((name, node) ∷ entries) =
      (lookup name entries ≡ none) × HasDistinctNames entries

  -- What is known of a hash in both maps.
  abbrev known : Str → Maps → Option Str × Option ℕ
  known h maps = (lookup h maps.0, lookup h maps.1)

  known-add_counts :
      (name h : Str) (n : Option ℕ) (counts : Map Str ℕ)
      → str_eq name h ≡ false
      → lookup h (add_counts name n counts) ≡ lookup h counts
  unfolding add_counts
  known-add_counts name h none counts other = refl
  known-add_counts name h (some n) counts other = rw (lookup-insert, other) refl

  known-add_lines :
      (name h : Str) (ls : List Str) (maps : Maps)
      → str_eq name h ≡ false
      → known h (add_lines name ls maps) ≡ known h maps
  unfolding add_lines
  known-add_lines name h [] (paths, counts) other = rw (lookup-insert, other) refl
  known-add_lines name h (l ∷ ls) (paths, counts) other =
      rw (lookup-insert, other, known-add_counts name h (count_line ls) counts other) refl

  known-add_entry :
      (name h : Str) (node : Node fst) (maps : Maps)
      → str_eq name h ≡ false
      → known h (add_entry fst name node maps) ≡ known h maps
  unfolding add_entry
  known-add_entry name h plain maps other = refl
  known-add_entry name h (dir d) maps other =
      known-add_lines name h (metadata_lines d.metadata) maps other

  -- Other folders change nothing of what is known of a hash.
  known-build_maps :
      (entries : IndexDir fst) (h : Str) (maps : Maps)
      → lookup h entries ≡ none
      → known h (build_maps fst entries maps) ≡ known h maps
  unfolding build_maps lookup
  known-build_maps [] h maps absent = refl
  known-build_maps ((name, node) ∷ entries) h maps absent =
      let ih = known-build_maps entries h (add_entry fst name node maps) in
      elim (Bool-cases (str_eq name h)) [
        | inl same ↦ cc (rw (lookup, same) at absent)
        | inr other ↦ ih (rw (lookup, other) at absent) ∙ known-add_entry name h node maps other
      ]

  -- A folder is found, whatever stands before and behind it.
  found-build_maps :
      (entries : IndexDir fst) (h : Str) (d : HashDir fst) (maps : Maps) (k : Option Str × Option ℕ)
      → HasDistinctNames entries
      → lookup h entries ≡ some (dir d)
      → ((m : Maps) → known h (add_entry fst h (dir d) m) ≡ k)
      → known h (build_maps fst entries maps) ≡ k
  unfolding build_maps lookup
  found-build_maps [] h d maps k distinct found reads = cc found
  found-build_maps ((name, node) ∷ entries) h d maps k (alone, distinct) found reads =
      let ih = found-build_maps entries h d (add_entry fst name node maps) k distinct in
      elim (Bool-cases (str_eq name h)) [
        | inl same ↦
            let p : name ≡ h = (str_eq_iff name h).0 same in
            let q : node ≡ dir d = some-injective node (dir d) (rw (lookup, same) at found) in
            rw (q, p)
              (known-build_maps entries h (add_entry fst h (dir d) maps) (rw p at alone)
                ∙ reads maps)
        | inr other ↦ ih (rw (lookup, other) at found) reads
      ]

  -- If `index_file` succeeds on a file with fewer than 2 ^ 64 row groups whose path is one line, and
  -- no two folders of the index directory have one name, then an engine that `new` opens on the index
  -- directory knows, under the hash of the path, the path and the number of its row groups.
  pub new-index_file :
      (hasher : Str → ℕ) (file_path column : Str) (w w' : World fst) (file : DataFile)
      (groups : List RowGroup)
      → index_file fst hasher file_path column w ≡ (ok tt, w')
      → lookup file_path w.files ≡ some file
      → file.groups ≡ some groups
      → length groups < word
      → IsLine file_path
      → HasDistinctNames w'.index
      → (lookup (calculate_file_hash hasher file_path) (new fst w'.index).0.file_map
          ≡ some file_path)
        × (num_row_groups (new fst w'.index).0 (calculate_file_hash hasher file_path)
            ≡ some (length groups))
  unfolding new build_file_map num_row_groups
  new-index_file hasher file_path column w w' file groups done opened parsed few line distinct =
      let h = calculate_file_hash hasher file_path in
      let (d, found, reads) =
        recorded-index_file fst hasher file_path column w w' file groups done opened parsed few
          line in
      let both =
        found-build_maps w'.index h d ([], []) (some file_path, some (length groups)) distinct found
          (λ m. rw (reads h m, lookup-insert, lookup-insert, str_eq_refl h) refl) in
      (ap (λ q. q.0) both, ap (λ q. q.1) both)
