-- ===== src/Provider/Prune/Laws.antt =====
-- What the loop of `prune_with_fst_index` makes of the matches of all filters.
use pdq.Prelude.{
  ℕ, ◌≡◌, refl, ap, ◌∙◌, Bool, true, false, not, ◌&&◌, ◌||◌, Option, none, some, List, [], ◌∷◌,
  ◌++◌, arith, any, all, filter, map, if◌then◌else◌, Bool-cases, inl, inr,
}
use pdq.Text.{Str, str_eq, str_eq_iff}
use pdq.Assoc.{Map, lookup, lookup-insert, str_key}
use pdq.RowSet.{contains, from_vec}
use pdq.RowSet.Laws.{contains-hash_insert, contains-sort_unstable}
use pdq.Index.World.{calculate_file_hash}
use pdq.Query.Engine.{FileMatches}
use pdq.Provider.Prune.{Pruned, intersect, add_match, add_matches, sort_groups}

pub contains-filter :
    (g : ℕ) (q : ℕ → Bool) (s : List ℕ) → contains g (filter q s) ≡ (contains g s && q g)
contains-filter g q [] = refl
contains-filter g q (x ∷ xs) = ground (arith, contains-filter g q xs)

contains-from_vec : (g : ℕ) (s : List ℕ) → contains g (from_vec s) ≡ contains g s
unfolding from_vec
contains-from_vec g [] = refl
contains-from_vec g (x ∷ xs) = rw (contains-hash_insert) (ground (arith, contains-from_vec g xs))

-- A file has an entry.
abbrev pub is_present {ℓ} : {A : Type ℓ} → Option A → Bool
is_present none = false
is_present (some s) = true

-- The entry of a file, if it has one, holds the row group.
abbrev pub admits : ℕ → Option (List ℕ) → Bool
admits g none = true
admits g (some s) = contains g s

-- The row group is among those that are kept of the file with this hash.
abbrev pub is_kept : ℕ → Str → Pruned → Bool
is_kept g file_hash p =
    is_present (lookup file_hash p.file_row_groups) && admits g (lookup file_hash p.file_row_groups)

admits-intersect :
    (g : ℕ) (o : Option (List ℕ)) (rs : List ℕ)
    → contains g (intersect o (from_vec rs)) ≡ (admits g o && contains g rs)
unfolding intersect
admits-intersect g none rs = contains-from_vec g rs
admits-intersect g (some s) rs =
    contains-filter g (λ x. contains x (from_vec rs)) s
    ∙ ap (λ b. contains g s && b) (contains-from_vec g rs)

-- Sorting each set changes nothing of what is kept.
pub is_kept-sort_groups :
    (g : ℕ) (file_hash : Str) (groups : Map Str (List ℕ))
    → (is_present (lookup file_hash (map sort_groups groups))
        && admits g (lookup file_hash (map sort_groups groups)))
      ≡ (is_present (lookup file_hash groups) && admits g (lookup file_hash groups))
unfolding lookup
is_kept-sort_groups g file_hash [] = refl
is_kept-sort_groups g file_hash ((h, s) ∷ groups) =
    ground (arith, contains-sort_unstable g s, is_kept-sort_groups g file_hash groups)

module _ (hasher : Str → ℕ) where
  -- The match is one of the file with this hash.
  abbrev pub is_of : Str → FileMatches → Bool
  is_of file_hash m = str_eq (calculate_file_hash hasher m.file_path) file_hash

  -- The match, if it is one of the file with this hash, lists the row group.
  abbrev pub allows : Str → ℕ → FileMatches → Bool
  allows file_hash g m = not (is_of file_hash m) || contains g m.row_groups

  add_match-at :
      (file_hash : Str) (m : FileMatches) (p : Pruned)
      → lookup file_hash (add_match hasher m p).file_row_groups ≡ (
          if is_of file_hash m
          then some (intersect (lookup file_hash p.file_row_groups) (from_vec m.row_groups))
          else lookup file_hash p.file_row_groups)
  unfolding add_match
  add_match-at file_hash m p = elim (Bool-cases (is_of file_hash m)) [
    | inl same ↦
        let e = (str_eq_iff (calculate_file_hash hasher m.file_path) file_hash).0 same in
        rw (lookup-insert, same) (rw e refl)
    | inr other ↦ rw (lookup-insert, other) refl
  ]

  pub is_present-add_matches :
      (file_hash : Str) (ms : List FileMatches) (p : Pruned)
      → is_present (lookup file_hash (add_matches hasher ms p).file_row_groups)
        ≡ (is_present (lookup file_hash p.file_row_groups) || any (is_of file_hash) ms)
  unfolding add_matches
  is_present-add_matches file_hash [] p = ground arith
  is_present-add_matches file_hash (m ∷ ms) p = ground (
    arith,
    is_present-add_matches file_hash ms (add_match hasher m p),
    add_match-at file_hash m p,
  )

  pub admits-add_matches :
      (file_hash : Str) (g : ℕ) (ms : List FileMatches) (p : Pruned)
      → admits g (lookup file_hash (add_matches hasher ms p).file_row_groups)
        ≡ (admits g (lookup file_hash p.file_row_groups) && all (allows file_hash g) ms)
  unfolding add_matches
  admits-add_matches file_hash g [] p = ground arith
  admits-add_matches file_hash g (m ∷ ms) p = ground (
    arith,
    admits-add_matches file_hash g ms (add_match hasher m p),
    add_match-at file_hash m p,
    admits-intersect g (lookup file_hash p.file_row_groups) m.row_groups,
  )

  pub add_matches-append :
      (ms ns : List FileMatches) (p : Pruned)
      → add_matches hasher (ms ++ ns) p ≡ add_matches hasher ns (add_matches hasher ms p)
  unfolding add_matches
  add_matches-append [] ns p = refl
  add_matches-append (m ∷ ms) ns p = add_matches-append ms ns (add_match hasher m p)

  -- Every hash with a path has the hash of that path.
  abbrev pub IsHashed : Pruned → Type 0
  IsHashed p =
      (file_hash path : Str)
      → lookup file_hash p.hash_to_path ≡ some path
      → calculate_file_hash hasher path ≡ file_hash

  add_match-IsHashed : (m : FileMatches) (p : Pruned) → IsHashed p → IsHashed (add_match hasher m p)
  unfolding add_match
  add_match-IsHashed m p h file_hash path e =
      let e' = rw lookup-insert at e in
      elim (Bool-cases (is_of file_hash m)) [
        | inl same ↦
            let q : some m.file_path ≡ some path = (rw same at e') in
            (let q' = q in
              cc ((str_eq_iff (calculate_file_hash hasher m.file_path) file_hash).0 same))
        | inr other ↦ h file_hash path (rw other at e')
      ]

  pub add_matches-IsHashed :
      (ms : List FileMatches) (p : Pruned) → IsHashed p → IsHashed (add_matches hasher ms p)
  unfolding add_matches
  add_matches-IsHashed [] p h = h
  add_matches-IsHashed (m ∷ ms) p h = add_matches-IsHashed ms _ (add_match-IsHashed m p h)
