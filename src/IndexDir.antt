-- ===== src/IndexDir.antt =====
-- The index directory on disk: one folder for each indexed file, named by the hash of its path, with
-- `metadata.txt` and a `.fst` file for each indexed column. The column is part of a path: this is the
-- file `{column}.fst` of the folder as long as the name of the column holds no `/`.
use pdq.Prelude.{◌≡◌, false, Option, none, some, any, ◌==◌}
use pdq.Text.{Str}
use pdq.Assoc.{Map, lookup, str_key}
use pdq.Fst.{Fst}

-- A file as the program meets it: absent, there but not readable, or there with its contents.
pub data OnDisk (A : Type 0) : Type 0 where
  missing : OnDisk A
  unreadable : OnDisk A
  present : A → OnDisk A

abbrev pub on_disk : {A : Type 0} → Option (OnDisk A) → OnDisk A
on_disk none = missing
on_disk (some f) = f

pub record HashDir (fst : Fst) : Type 0 where
  -- `metadata.txt`
  pub metadata : OnDisk Str
  -- `{column}.fst`, by column, which is one component of a path
  pub fsts : Map Str (OnDisk fst.Image)

-- The name of the column names a file of the folder: it holds no `/`.
abbrev pub IsFileName : Str → Type 0
IsFileName column = any (λ b. b == b'/') column ≡ false

-- What `read_dir` finds in the index directory.
pub data Node (fst : Fst) : Type 0 where
  plain : Node fst
  dir : HashDir fst → Node fst

abbrev pub IndexDir : Fst → Type 0
IndexDir fst = Map Str (Node fst)

abbrev node_dir : {fst : Fst} → Option (Node fst) → Option (HashDir fst)
node_dir (some (dir d)) = some d
node_dir _ = none

module _ (fst : Fst) where
  -- The folder `{index_dir}/{hash}`
  unfoldable pub hash_dir : Str → IndexDir fst → Option (HashDir fst)
  unfolding lookup
  hash_dir hash root = node_dir (lookup hash root)

  abbrev fst_in : Str → Option (HashDir fst) → OnDisk fst.Image
  fst_in column none = missing
  fst_in column (some d) = on_disk (lookup column d.fsts)

  -- The file `{index_dir}/{hash}/{column}.fst`
  unfoldable pub fst_file : Str → Str → IndexDir fst → OnDisk fst.Image
  unfolding hash_dir lookup
  fst_file hash column root = fst_in column (hash_dir hash root)
