-- ===== src/PyModule/Rows.antt =====
-- The rows of the table against the list of pairs of a file and a row group.
use pdq.Prelude.{ℕ, ◌≡◌, refl, ap, ◌%◌, ◌<◌, List, [], ◌∷◌, ◌++◌, All, arith, map, append-nil}
use pdq.Prelude.Result.{Result}
use pdq.Text.{Str}
use pdq.Text.Decimal.{word}
use pdq.Query.Engine.{FileMatches}
use pdq.PyModule.{push_rows, push_matches, matches_to_record_batch}

-- One pair for each row group of each match, in order.
abbrev pub rows_of : Str → List ℕ → List (Str × ℕ)
rows_of path [] = []
rows_of path (g ∷ gs) = (path, g) ∷ rows_of path gs

abbrev pub rows : List FileMatches → List (Str × ℕ)
rows [] = []
rows (m ∷ ms) = rows_of m.file_path m.row_groups ++ rows ms

-- A `usize`.
abbrev pub IsWord : ℕ → Type 0
IsWord g = g < word

abbrev paths : List (Str × ℕ) → List Str
paths rs = map (λ (r : Str × ℕ). r.0) rs

abbrev groups : List (Str × ℕ) → List ℕ
groups rs = map (λ (r : Str × ℕ). r.1) rs

assoc : {A : Type 0} (xs ys zs : List A) → ((xs ++ ys) ++ zs) ≡ (xs ++ (ys ++ zs))
assoc [] ys zs = refl
assoc (x ∷ xs) ys zs = ap (◌∷◌ x) (assoc xs ys zs)

map-append : {A B : Type 0} (f : A → B) (xs ys : List A) → map f (xs ++ ys) ≡ (map f xs ++ map f ys)
map-append f [] ys = refl
map-append f (x ∷ xs) ys = ap (◌∷◌ (f x)) (map-append f xs ys)

push_rows-extend :
    (path : Str) (gs : List ℕ) (ps : List Str) (ns : List ℕ)
    → All IsWord gs
    → push_rows path gs (ps, ns) ≡ (ps ++ paths (rows_of path gs), ns ++ groups (rows_of path gs))
unfolding push_rows
push_rows-extend path [] ps ns h = rw (append-nil ps, append-nil ns) refl
push_rows-extend path (g ∷ gs) ps ns (h, hs) =
    let e : g % word ≡ g = omega (arith, h) in
    rw
      (
        push_rows-extend path gs (ps ++ path ∷ []) (ns ++ g % word ∷ []) hs,
        assoc ps (path ∷ []) (paths (rows_of path gs)),
        assoc ns (g % word ∷ []) (groups (rows_of path gs)),
        e,
      )
      refl

push_matches-extend :
    (ms : List FileMatches) (ps : List Str) (ns : List ℕ)
    → All (λ m. All IsWord m.row_groups) ms
    → push_matches ms (ps, ns) ≡ (ps ++ paths (rows ms), ns ++ groups (rows ms))
unfolding push_matches
push_matches-extend [] ps ns h = rw (append-nil ps, append-nil ns) refl
push_matches-extend (m ∷ ms) ps ns (h, hs) =
    let here = rows_of m.file_path m.row_groups in
    rw
      (
        push_rows-extend m.file_path m.row_groups ps ns h,
        push_matches-extend ms (ps ++ paths here) (ns ++ groups here) hs,
        map-append (λ (r : Str × ℕ). r.0) here (rows ms),
        map-append (λ (r : Str × ℕ). r.1) here (rows ms),
        assoc ps (paths here) (paths (rows ms)),
        assoc ns (groups here) (groups (rows ms)),
      )
      refl

-- Where every row group is below 2 ^ 64, the batch is made of the two columns of the list of all
-- pairs of a file and a row group, in the order of the matches.
pub matches_to_record_batch-rows :
    {Batch : Type 0} (try_new : List Str → List ℕ → Result Batch) (matches : List FileMatches)
    → All (λ m. All IsWord m.row_groups) matches
    → matches_to_record_batch try_new matches
      ≡ try_new
          (map (λ (r : Str × ℕ). r.0) (rows matches))
          (map (λ (r : Str × ℕ). r.1) (rows matches))
unfolding matches_to_record_batch
matches_to_record_batch-rows try_new matches h =
    rw (matches_to_record_batch, push_matches-extend matches [] [] h) refl
