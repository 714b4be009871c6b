-- ===== src/Index/Frame.antt =====
-- What `index_file` leaves alone, whether it succeeds or fails: the data files, the folders of other
-- hashes, and the indexes of other columns in its own folder.
use pdq.Prelude.{◌≡◌, refl, ◌∙◌, Bool, true, false, Option, none, some, List, [], ◌∷◌, ℕ, length}
use pdq.Prelude.Result.{Result, ok, err, io, not_parquet}
use pdq.Index.Keys.{index_keys}
use pdq.Index.Metadata.{ok_or}
use pdq.Prelude.Exec.{Exec, pure, lift, gets, ◌>>=◌}
use pdq.Text.{Str, str_eq, str_eq_refl}
use pdq.Assoc.{lookup, insert, lookup-insert, str_key}
use pdq.Fst.{Fst}
use pdq.IndexDir.{missing, present, HashDir, IsFileName, Node, plain, dir, hash_dir, fst_file}
use pdq.Index.World.{
  calculate_file_hash, DataFile, World, fault, attempt, set_node, ensure_dir, create_hash_dir,
  change_node, change_dir, write_metadata, write_fst,
}
use pdq.Index.Indexer.{fill_fst, write_index, index_file}

module _ (fst : Fst) (file_hash column : Str) where
  -- From `w` to `w'` nothing changed but `metadata.txt` and the column's index in the folder.
  pub record SameElsewhere (w w' : World fst) : Type 0 where
    pub files : w'.files ≡ w.files
    pub folders :
        (k : Str) → str_eq file_hash k ≡ false → hash_dir fst k w'.index ≡ hash_dir fst k w.index
    pub columns :
        (c : Str)
        → str_eq column c ≡ false
        → fst_file fst file_hash c w'.index ≡ fst_file fst file_hash c w.index

  pub SameElsewhere-refl : (w : World fst) → SameElsewhere w w
  SameElsewhere-refl w = record { files = refl; folders = λ k h. refl; columns = λ c h. refl }

  pub SameElsewhere-trans :
      {u v w : World fst} → SameElsewhere u v → SameElsewhere v w → SameElsewhere u w
  SameElsewhere-trans a b = record {
    files = b.files ∙ a.files;
    folders = λ k h. b.folders k h ∙ a.folders k h;
    columns = λ c h. b.columns c h ∙ a.columns c h;
  }

  -- An action that keeps to that, whatever it returns.
  pub record Framed {A : Type 0} (m : Exec (World fst) A) : Type 0 where
    pub at : (w : World fst) → SameElsewhere w (m w).1

  Framed-pure : {A : Type 0} (a : A) → Framed (pure a)
  Framed-pure a = record { at = SameElsewhere-refl }

  Framed-lift : {A : Type 0} (r : Result A) → Framed (lift r)
  Framed-lift r = record { at = SameElsewhere-refl }

  Framed-gets : {A : Type 0} (f : World fst → Result A) → Framed (gets f)
  Framed-gets f = record { at = SameElsewhere-refl }

  Framed-continue :
      {A B : Type 0} (r : Result A) (f : A → Exec (World fst) B)
      → ((a : A) → Framed (f a))
      → Framed (lift r >>= f)
  Framed-continue (ok a) f h = h a
  Framed-continue (err e) f h = Framed-lift (err e)

  Framed-bind :
      {A B : Type 0} (m : Exec (World fst) A) (f : A → Exec (World fst) B)
      → Framed m
      → ((a : A) → Framed (f a))
      → Framed (m >>= f)
  Framed-bind m f hm hf = record {
    at = λ w. SameElsewhere-trans (hm.at w) ((Framed-continue (m w).0 f hf).at (m w).1);
  }

  Framed-attempt : Framed (attempt fst)
  unfolding attempt
  Framed-attempt = record { at = λ w. at_fault w.faults w }
    where
      at_fault : (fs : List Bool) (w : World fst) → SameElsewhere w (fault fst fs w).1
      at_fault [] w = record { files = refl; folders = λ k h. refl; columns = λ c h. refl }
      at_fault (false ∷ fs) w = record {
        files = refl;
        folders = λ k h. refl;
        columns = λ c h. refl;
      }
      at_fault (true ∷ fs) w = record { files = refl; folders = λ k h. refl; columns = λ c h. refl }

  -- A new folder in which the other columns stand as they stood.
  set_node-SameElsewhere :
      (d : HashDir fst) (w : World fst)
      → ((c : Str)
          → str_eq column c ≡ false
          → fst_file fst file_hash c (insert file_hash (dir d) w.index)
            ≡ fst_file fst file_hash c w.index)
      → SameElsewhere w (set_node fst file_hash (dir d) w).1
  unfolding set_node hash_dir
  set_node-SameElsewhere d w h = record {
    files = refl;
    folders = λ k other. rw (hash_dir, lookup-insert, other);
    columns = h;
  }

  Framed-create_hash_dir : Framed (create_hash_dir fst file_hash)
  unfolding create_hash_dir fst_file
  Framed-create_hash_dir = record { at = λ w. at_node (lookup file_hash w.index) w refl }
    where
      at_node :
          (n : Option (Node fst)) (w : World fst)
          → lookup file_hash w.index ≡ n
          → SameElsewhere w (ensure_dir fst file_hash n w).1
      at_node (some (dir d)) w e = SameElsewhere-refl w
      at_node (some plain) w e = SameElsewhere-refl w
      at_node none w e =
          set_node-SameElsewhere (record { metadata = missing; fsts = [] }) w
            (λ c h. rw (fst_file, hash_dir, lookup-insert, str_eq_refl file_hash, e))

  -- `change_dir` with a change that keeps the other columns.
  Framed-change_dir :
      (f : HashDir fst → HashDir fst)
      → ((d : HashDir fst) (c : Str)
          → str_eq column c ≡ false
          → lookup c (f d).fsts ≡ lookup c d.fsts)
      → Framed (change_dir fst file_hash f)
  unfolding change_dir fst_file
  Framed-change_dir f keeps = record { at = λ w. at_node (lookup file_hash w.index) w refl }
    where
      at_node :
          (n : Option (Node fst)) (w : World fst)
          → lookup file_hash w.index ≡ n
          → SameElsewhere w (change_node fst file_hash f n w).1
      at_node (some (dir d)) w e = set_node-SameElsewhere (f d) w (λ c h.
          rw (fst_file, hash_dir, lookup-insert, str_eq_refl file_hash, e) (rw (keeps d c h)))
      at_node (some plain) w e = SameElsewhere-refl w
      at_node none w e = SameElsewhere-refl w

  Framed-write_metadata : (text : Str) → Framed (write_metadata fst file_hash text)
  unfolding write_metadata
  Framed-write_metadata text =
      Framed-change_dir (λ d. record d { metadata = present text }) (λ d c h. refl)

  Framed-write_fst : (image : fst.Image) → Framed (write_fst fst file_hash column image)
  unfolding write_fst
  Framed-write_fst image =
      Framed-change_dir (λ d. record d { fsts = insert column (present image) d.fsts })
        (λ d c h. rw (lookup-insert, h))

  Framed-fill_fst : (image : Option fst.Image) → Framed (fill_fst fst file_hash column image)
  unfolding fill_fst
  Framed-fill_fst none = Framed-lift _
  Framed-fill_fst (some image) = Framed-write_fst image

  ruleset frame_rules = (
    Framed-pure, Framed-lift, Framed-gets, Framed-bind, Framed-attempt, Framed-create_hash_dir,
    Framed-write_metadata, Framed-write_fst, Framed-fill_fst,
  )

  Framed-write_index :
      (file_path : Str) (file : DataFile) (n : ℕ) (keys : List Str)
      → Framed (write_index fst file_hash file_path column file n keys)
  unfolding write_index
  Framed-write_index file_path file n keys = search frame_rules depth 30

pub index_file-frame :
    (fst : Fst) (hasher : Str → ℕ) (file_path column : Str) (w : World fst)
    → SameElsewhere fst
        (calculate_file_hash hasher file_path)
        column
        w
        (index_file fst hasher file_path column w).1
unfolding index_file
index_file-frame fst hasher file_path column w =
    let file_hash = calculate_file_hash hasher file_path in
    (Framed-bind fst file_hash column _ _
        (Framed-gets fst file_hash column (λ u. ok_or io (lookup file_path u.files)))
        λ file.
          Framed-bind fst file_hash column _ _
            (Framed-lift fst file_hash column (ok_or not_parquet file.groups))
            λ groups.
              Framed-bind fst file_hash column _ _
                (Framed-lift fst file_hash column (index_keys column groups))
                λ keys.
                  Framed-write_index fst file_hash column file_path file (length groups) keys).at
      w

-- Where the name of the column holds no `/`: `index_file`, whether it succeeds or fails, changes no
-- data file outside of the index directory, no other folder of the index directory and no other
-- column's index in its own folder.
pub index_file-SameElsewhere :
    (fst : Fst) (hasher : Str → ℕ) (file_path column : Str) (w : World fst)
    → IsFileName column
    → SameElsewhere fst
        (calculate_file_hash hasher file_path)
        column
        w
        (index_file fst hasher file_path column w).1
index_file-SameElsewhere fst hasher file_path column w named =
    index_file-frame fst hasher file_path column w
