-- ===== src/Query/Listing/Laws.antt =====
-- What the listings hold.
use pdq.Prelude.{
  ℕ, ◌≡◌, refl, ap, ◌∙◌, true, false, ◌||◌, Option, none, some, List, [], ◌∷◌, filter, is_empty,
  if◌then◌else◌, Bool-cases, inl, inr, arith, All,
}
use pdq.Prelude.Result.{ok}
use pdq.Text.{Str, str_eq, str_eq_iff}
use pdq.Text.Order.{le_bytes, lt_bytes, lt_bytes_asymm, lt_bytes_trans, lt_bytes_connected}
use pdq.Assoc.{Map, lookup, insert, lookup-insert, str_key}
use pdq.Fst.{Fst}
use pdq.IndexDir.{OnDisk, missing, unreadable, present, HashDir, plain, dir, IndexDir}
use pdq.Index.World.{calculate_file_hash}
use pdq.Index.Indexer.{is_parquet}
use pdq.Query.Listing.{
  has, collect_map, wanted_files, resolve_file_paths, insert_name, sort_names, fst_stems,
  columns_of, get_available_columns, list_indexed_files,
}

str_eq_comm : (s t : Str) → str_eq s t ≡ str_eq t s
str_eq_comm s t = ground (arith, str_eq_iff s t, str_eq_iff t s)

has-differs :
    (names : List Str) (a b : Str) → has names a ≡ true → has names b ≡ false → str_eq a b ≡ false
has-differs names a b p q = elim (Bool-cases (str_eq a b)) [
  | inl same ↦
      let e : a ≡ b = (str_eq_iff a b).0 same in
      let p' : has names b ≡ true = (rw (← e) p) in absurd (cc)
  | inr other ↦ other
]

module _ (hasher : Str → ℕ) where
  -- The last of the paths that has this hash, or else `found`.
  abbrev pub last_with : Str → List Str → Option Str → Option Str
  last_with file_hash [] found = found
  last_with file_hash (path ∷ paths) found =
      last_with file_hash paths
        (if str_eq (calculate_file_hash hasher path) file_hash then some path else found)

  collect_map-wanted :
      (hashes : List Str) (file_hash : Str) (paths : List Str) (map : Map Str Str)
      → lookup file_hash (collect_map (wanted_files hasher hashes paths) map) ≡ (
          if has hashes file_hash
          then last_with file_hash paths (lookup file_hash map)
          else lookup file_hash map)
  unfolding collect_map wanted_files
  collect_map-wanted hashes file_hash [] map = ground arith
  collect_map-wanted hashes file_hash (path ∷ paths) map =
      let h = calculate_file_hash hasher path in
      let ih = collect_map-wanted hashes file_hash paths in
      elim (Bool-cases (has hashes h)) [
        | inl wanted ↦ elim (Bool-cases (has hashes file_hash)) [
          | inl asked ↦
              let rest = rw (lookup-insert, asked) at (ih (insert h path map)) in
              rw (wanted_files, collect_map, wanted, asked) rest
          | inr unasked ↦
              let rest = rw (lookup-insert, unasked) at (ih (insert h path map)) in
              let other = has-differs hashes h file_hash wanted unasked in
              rw (wanted_files, collect_map, wanted, unasked) (rw other at rest)
        ]
        | inr unwanted ↦ elim (Bool-cases (has hashes file_hash)) [
          | inl asked ↦
              let other = has-differs hashes file_hash h asked unwanted in
              let other' : str_eq h file_hash ≡ false = str_eq_comm h file_hash ∙ other in
              rw (wanted_files, unwanted, asked, other') (rw asked at (ih map))
          | inr unasked ↦ rw (wanted_files, unwanted, unasked) (rw unasked at (ih map))
        ]
      ]

  -- `resolve_file_paths` gives, for each hash that is asked for, the last Parquet file of the walk
  -- whose path has this hash, if there is one, and gives nothing for any other hash.
  pub resolve_file_paths-eq :
      (hashes entries : List Str) (file_hash : Str)
      → lookup file_hash (resolve_file_paths hasher hashes entries) ≡ (
          if has hashes file_hash
          then last_with file_hash (filter is_parquet entries) none
          else none)
  unfolding resolve_file_paths lookup
  resolve_file_paths-eq hashes entries file_hash =
      collect_map-wanted hashes file_hash (filter is_parquet entries) []

-- Sorting changes no member.
has-insert_name :
    (x name : Str) (ys : List Str) → has (insert_name x ys) name ≡ (str_eq x name || has ys name)
unfolding insert_name
has-insert_name x name [] = refl
has-insert_name x name (y ∷ ys) = ground (arith, has-insert_name x name ys)

has-sort_names : (xs : List Str) (name : Str) → has (sort_names xs) name ≡ has xs name
unfolding sort_names
has-sort_names [] name = refl
has-sort_names (x ∷ xs) name =
    has-insert_name x name (sort_names xs) ∙ ap (◌||◌ (str_eq x name)) (has-sort_names xs name)

-- Ascending, in the order of bytes, with repetitions.
abbrev pub IsSorted : List Str → Type 0
IsSorted [] = Unit
IsSorted (x ∷ xs) = All (λ y. le_bytes x y ≡ true) xs × IsSorted xs

le_bytes_total : (a b : Str) → le_bytes a b ≡ false → le_bytes b a ≡ true
le_bytes_total a b e = ground (arith, lt_bytes_asymm b a)

le_bytes_trans : (a b c : Str) → le_bytes a b ≡ true → le_bytes b c ≡ true → le_bytes a c ≡ true
le_bytes_trans a b c p q = elim (Bool-cases (lt_bytes c a)) [
  | inr ge ↦ rw ge refl
  | inl ca ↦ elim (Bool-cases (lt_bytes b c)) [
    | inl bc ↦ let ba = lt_bytes_trans b c a bc ca in absurd (ground arith)
    | inr cb ↦
        let same : b ≡ c = lt_bytes_connected b c cb (ground arith) in
        let ba : lt_bytes b a ≡ true = (rw same ca) in absurd (ground arith)
  ]
]

All-le :
    (x y : Str) (ys : List Str)
    → le_bytes x y ≡ true
    → All (λ z. le_bytes y z ≡ true) ys
    → All (λ z. le_bytes x z ≡ true) ys
All-le x y [] p h = tt
All-le x y (z ∷ ys) p (q, h) = (le_bytes_trans x y z p q, All-le x y ys p h)

All-insert_name :
    (x y : Str) (ys : List Str)
    → le_bytes y x ≡ true
    → All (λ z. le_bytes y z ≡ true) ys
    → All (λ z. le_bytes y z ≡ true) (insert_name x ys)
unfolding insert_name
All-insert_name x y [] p h = (p, tt)
All-insert_name x y (z ∷ ys) p (q, h) = elim (Bool-cases (le_bytes x z)) [
  | inl le ↦ rw (insert_name, le) (p, (q, h))
  | inr gt ↦ rw (insert_name, gt) (q, All-insert_name x y ys p h)
]

insert_name-IsSorted : (x : Str) (ys : List Str) → IsSorted ys → IsSorted (insert_name x ys)
unfolding insert_name
insert_name-IsSorted x [] h = (tt, tt)
insert_name-IsSorted x (y ∷ ys) (p, h) = elim (Bool-cases (le_bytes x y)) [
  | inl le ↦ rw (insert_name, le) ((le, All-le x y ys le p), (p, h))
  | inr gt ↦
      rw (insert_name, gt)
        (All-insert_name x y ys (le_bytes_total x y gt) p, insert_name-IsSorted x ys h)
]

pub sort_names-IsSorted : (xs : List Str) → IsSorted (sort_names xs)
unfolding sort_names
sort_names-IsSorted [] = tt
sort_names-IsSorted (x ∷ xs) = insert_name-IsSorted x (sort_names xs) (sort_names-IsSorted xs)

module _ (fst : Fst) where
  has-fst_stems :
      (files : Map Str (OnDisk fst.Image)) (column : Str) (image : fst.Image)
      → is_empty column ≡ false
      → lookup column files ≡ some (present image)
      → has (fst_stems fst files) column ≡ true
  unfolding fst_stems lookup
  has-fst_stems [] column image named e = cc
  has-fst_stems ((k, missing) ∷ files) column image named e =
      ground (arith, has-fst_stems files column image named)
  has-fst_stems ((k, unreadable) ∷ files) column image named e =
      ground (arith, has-fst_stems files column image named)
  has-fst_stems ((k, present x) ∷ files) column image named e =
      ground (arith, str_eq_iff k column, has-fst_stems files column image named)

  -- A folder that is there is listed, and a column with a name and an index in it.
  pub listed-dir :
      (root : IndexDir fst) (file_hash : Str) (d : HashDir fst)
      → lookup file_hash root ≡ some (dir d)
      → has (list_indexed_files fst root) file_hash ≡ true
  unfolding list_indexed_files lookup
  listed-dir [] file_hash d e = cc
  listed-dir ((k, plain) ∷ root) file_hash d e = ground (arith, listed-dir root file_hash d)
  listed-dir ((k, dir x) ∷ root) file_hash d e = ground (arith, listed-dir root file_hash d)

  pub available_columns-lem :
      (root : IndexDir fst) (file_hash column : Str) (d : HashDir fst) (image : fst.Image)
      → lookup file_hash root ≡ some (dir d)
      → is_empty column ≡ false
      → lookup column d.fsts ≡ some (present image)
      → (columns : List Str) × (get_available_columns fst file_hash root ≡ ok columns)
        × IsSorted columns
        × (has columns column ≡ true)
  unfolding get_available_columns columns_of
  available_columns-lem root file_hash column d image found named there = (
    sort_names (fst_stems fst d.fsts),
    ap (columns_of fst) found,
    sort_names-IsSorted (fst_stems fst d.fsts),
    has-sort_names (fst_stems fst d.fsts) column ∙ has-fst_stems d.fsts column image named there,
  )
