-- ===== src/Index/Success.antt =====
-- What `index_file` has written when it succeeds, whatever failures the file system had in store
-- before.
use pdq.Prelude.{
  ℕ, ◌≡◌, refl, sym, ap, ◌∙◌, Bool, true, false, Option, none, some, List, [], ◌∷◌, length,
}
use pdq.Prelude.Result.{Error, Result, ok, err, io, not_parquet, before_epoch}
use pdq.Prelude.Exec.{Exec, lift, gets, ◌>>=◌}
use pdq.Text.{Str}
use pdq.Assoc.{lookup, insert, lookup-insert_self, str_key}
use pdq.Fst.{Fst}
use pdq.IndexDir.{present, HashDir, Node, plain, dir}
use pdq.Parquet.{RowGroup}
use pdq.Index.Keys.{index_keys}
use pdq.Index.Metadata.{metadata_content, ok_or}
use pdq.Index.World.{
  calculate_file_hash, DataFile, World, fault, attempt, create_hash_dir, change_node, change_dir,
  write_metadata, write_fst,
}
use pdq.Index.Indexer.{fill_fst, write_index, index_file}

-- A run that succeeds went through each of its steps.
pub record Ran {S A B : Type 0} (m : Exec S A) (f : A → Exec S B) (s s'' : S) (b : B) : Type 0 where
  pub value : A
  pub middle : S
  pub first : m s ≡ (ok value, middle)
  pub second : f value middle ≡ (ok b, s'')

continue-inv :
    {S A B : Type 0} (m : Exec S A) (f : A → Exec S B) (s s' s'' : S) (b : B) (r : Result A)
    → m s ≡ (r, s')
    → (lift r >>= f) s' ≡ (ok b, s'')
    → Ran m f s s'' b
continue-inv m f s s' s'' b (ok a) e h = record { value = a; middle = s'; first = e; second = h }
continue-inv m f s s' s'' b (err x) e h =
    let p : ◌≡◌ {A = Result _} (err x) (ok b) = ap (λ q. q.0) h in absurd (cc)

pub >>=-inv :
    {S A B : Type 0} (m : Exec S A) (f : A → Exec S B) (s s'' : S) (b : B)
    → (m >>= f) s ≡ (ok b, s'')
    → Ran m f s s'' b
>>=-inv m f s s'' b h = continue-inv m f s (m s).1 s'' b (m s).0 refl h

-- What a computation that changes nothing returned.
pub lift-inv :
    {S A : Type 0} (r : Result A) (s s' : S) (a : A)
    → ◌≡◌ {A = Result A × S} (r, s) (ok a, s')
    → (r ≡ ok a) × (s ≡ s')
lift-inv r s s' a h = (ap (λ q. q.0) h, ap (λ q. q.1) h)

pub ok_or-inv : {A : Type 0} (e : Error) (o : Option A) (a : A) → ok_or e o ≡ ok a → o ≡ some a
unfolding ok_or
ok_or-inv e none a h = cc
ok_or-inv e (some b) a h = cc

module _ (fst : Fst) where
  pub attempt-inv :
      (fs : List Bool) (w w' : World fst)
      → fault fst fs w ≡ (ok tt, w')
      → (w'.files ≡ w.files) × (w'.index ≡ w.index)
  unfolding attempt
  attempt-inv [] w w' h =
      let e = ap (λ q. q.1) h in (ap (λ u. u.files) (sym e), ap (λ u. u.index) (sym e))
  attempt-inv (false ∷ fs) w w' h =
      let e = ap (λ q. q.1) h in (ap (λ u. u.files) (sym e), ap (λ u. u.index) (sym e))
  attempt-inv (true ∷ fs) w w' h = cc (ap (λ q. q.0) h)

  module _ (file_hash : Str) where
    -- A write within the folder found the folder `d` and left `f d`.
    change_dir-inv :
        (f : HashDir fst → HashDir fst) (n : Option (Node fst)) (w w' : World fst)
        → lookup file_hash w.index ≡ n
        → change_node fst file_hash f n w ≡ (ok tt, w')
        → (d : HashDir fst) × (lookup file_hash w.index ≡ some (dir d))
          × (lookup file_hash w'.index ≡ some (dir (f d)))
    unfolding change_dir
    change_dir-inv f (some (dir d)) w w' e h =
        (d, e, rw (← ap (λ q. q.1.index) h) (lookup-insert_self file_hash (dir (f d)) w.index))
    change_dir-inv f (some plain) w w' e h = cc (ap (λ q. q.0) h)
    change_dir-inv f none w w' e h = cc (ap (λ q. q.0) h)

    node_of-injective :
        (d d' : HashDir fst) → ◌≡◌ {A = Option (Node fst)} (some (dir d)) (some (dir d')) → d ≡ d'
    node_of-injective d d' h = cc

    change_dir-at :
        (f : HashDir fst → HashDir fst) (d : HashDir fst) (v w w' : World fst)
        → lookup file_hash v.index ≡ some (dir d)
        → w.index ≡ v.index
        → change_dir fst file_hash f w ≡ (ok tt, w')
        → lookup file_hash w'.index ≡ some (dir (f d))
    unfolding change_dir
    change_dir-at f d v w w' e same h =
        let (d', found, after) = change_dir-inv f (lookup file_hash w.index) w w' refl h in
        let q : d' ≡ d =
          node_of-injective d' d (sym found ∙ ap (λ x. lookup file_hash x) same ∙ e) in
        rw (← q) after

  -- What stands in the folder after the index of a column was written.
  pub record Written (file_hash file_path column : Str) (file : DataFile) (n : ℕ) (keys : List Str)
      (w : World fst) : Type 0 where
    pub mtime : ℕ
    pub image : fst.Image
    pub folder : HashDir fst
    pub time_read : file.mtime ≡ some mtime
    pub built : fst.build keys ≡ some image
    pub found : lookup file_hash w.index ≡ some (dir folder)
    pub metadata : folder.metadata ≡ present (metadata_content file_path mtime file.size n)
    pub indexed : lookup column folder.fsts ≡ some (present image)

  fill_fst-inv :
      (file_hash file_path column : Str) (file : DataFile) (n mtime : ℕ) (keys : List Str)
      (image : Option fst.Image) (d : HashDir fst) (v w w' : World fst)
      → file.mtime ≡ some mtime
      → fst.build keys ≡ image
      → lookup file_hash v.index ≡ some (dir d)
      → w.index ≡ v.index
      → d.metadata ≡ present (metadata_content file_path mtime file.size n)
      → fill_fst fst file_hash column image w ≡ (ok tt, w')
      → Written file_hash file_path column file n keys w'
  unfolding fill_fst write_fst
  fill_fst-inv file_hash file_path column file n mtime keys none d v w w' t b e same m h =
      cc (ap (λ q. q.0) h)
  fill_fst-inv file_hash file_path column file n mtime keys (some image) d v w w' t b e same m h =
      record {
        mtime = mtime;
        image = image;
        folder = record d { fsts = insert column (present image) d.fsts };
        time_read = t;
        built = b;
        found =
            change_dir-at file_hash (λ d. record d { fsts = insert column (present image) d.fsts })
              d v w w' e same h;
        metadata = m;
        indexed = lookup-insert_self column (present image) d.fsts;
      }

  write_index-inv :
      (file_hash file_path column : Str) (file : DataFile) (n : ℕ) (keys : List Str)
      (w w' : World fst)
      → write_index fst file_hash file_path column file n keys w ≡ (ok tt, w')
      → Written file_hash file_path column file n keys w'
  unfolding write_index
  write_index-inv file_hash file_path column file n keys w w' h =
      let r1 = >>=-inv (attempt fst) _ w w' tt h in
      let r2 = >>=-inv (create_hash_dir fst file_hash) _ r1.middle w' tt r1.second in
      let r3 = >>=-inv (lift (ok_or before_epoch file.mtime)) _ r2.middle w' tt r2.second in
      let (t, s3) =
        lift-inv (ok_or before_epoch file.mtime) r2.middle r3.middle r3.value r3.first in
      let r4 = >>=-inv (attempt fst) _ r3.middle w' tt r3.second in
      let content = metadata_content file_path r3.value file.size n in
      let r5 = >>=-inv (write_metadata fst file_hash content) _ r4.middle w' tt r4.second in
      let (d, found, after) =
        change_dir-inv file_hash (λ d. record d { metadata = present content })
          (lookup file_hash r4.middle.index) r4.middle r5.middle refl r5.first in
      let r6 = >>=-inv (attempt fst) _ r5.middle w' tt r5.second in
      let same6 = (attempt-inv r5.middle.faults r5.middle r6.middle r6.first).1 in
      let r7 = >>=-inv (write_fst fst file_hash column fst.truncated) _ r6.middle w' tt r6.second in
      let emptied =
        change_dir-at file_hash
          (λ d. record d { fsts = insert column (present fst.truncated) d.fsts })
          (record d { metadata = present content }) r5.middle r6.middle r7.middle after same6
          r7.first in
      let r8 = >>=-inv (attempt fst) _ r7.middle w' tt r7.second in
      let same8 = (attempt-inv r7.middle.faults r7.middle r8.middle r8.first).1 in
      fill_fst-inv file_hash file_path column file n r3.value keys (fst.build keys)
        (record d {
          metadata = present content;
          fsts = insert column (present fst.truncated) d.fsts;
        })
        r7.middle r8.middle w' (ok_or-inv before_epoch file.mtime r3.value t) refl emptied same8
        refl r8.second

  -- What `index_file` read, and what it has written.
  pub record Indexed (hasher : Str → ℕ) (file_path column : Str) (w w' : World fst) : Type 0 where
    pub file : DataFile
    pub groups : List RowGroup
    pub keys : List Str
    pub opened : lookup file_path w.files ≡ some file
    pub parsed : file.groups ≡ some groups
    pub collected : index_keys column groups ≡ ok keys
    pub written :
        Written (calculate_file_hash hasher file_path) file_path column file (length groups) keys w'

  -- A successful `index_file` has read the file and written, into the folder of its hash, the
  -- metadata and an index of the keys.
  pub index_file-inv :
      (hasher : Str → ℕ) (file_path column : Str) (w w' : World fst)
      → index_file fst hasher file_path column w ≡ (ok tt, w')
      → Indexed hasher file_path column w w'
  unfolding index_file
  index_file-inv hasher file_path column w w' h =
      let r1 = >>=-inv (gets (λ u. ok_or io (lookup file_path u.files))) _ w w' tt h in
      let (o, s1) = lift-inv (ok_or io (lookup file_path w.files)) w r1.middle r1.value r1.first in
      let r2 = >>=-inv (lift (ok_or not_parquet r1.value.groups)) _ r1.middle w' tt r1.second in
      let (p, s2) =
        lift-inv (ok_or not_parquet r1.value.groups) r1.middle r2.middle r2.value r2.first in
      let r3 = >>=-inv (lift (index_keys column r2.value)) _ r2.middle w' tt r2.second in
      let (k, s3) = lift-inv (index_keys column r2.value) r2.middle r3.middle r3.value r3.first in
      record {
        file = r1.value;
        groups = r2.value;
        keys = r3.value;
        opened = ok_or-inv io (lookup file_path w.files) r1.value o;
        parsed = ok_or-inv not_parquet r1.value.groups r2.value p;
        collected = k;
        written =
            write_index-inv (calculate_file_hash hasher file_path) file_path column r1.value
              (length r2.value) r3.value r3.middle w' r3.second;
      }
