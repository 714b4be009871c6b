-- ===== src/BloomProbe.antt =====
-- bloom_probe.rs. The bloom filters are the crate's: a type of filters and their test are parameters,
-- and so is how many bytes it asks the counting reader for.
pub mod Batch
use pdq.Prelude.{
  ℕ, zero, suc, ◌+◌, ◌%◌, ◌++◌, Bool, true, false, not, ◌&&◌, Option, none, some, List, [], ◌∷◌,
  if◌then◌else◌, map,
}
use pdq.Prelude.Result.{Result, ok, err, io, no_column, ◌>>=◌}
use pdq.Prelude.Exec.{Exec}
use pdq.Text.{Str, Bytes, codes, str_eq}
use pdq.Text.Decimal.{word}

-- `fetch_add` on an `AtomicU64`
abbrev pub fetch_add : ℕ → ℕ → ℕ
fetch_add bytes n = (bytes + n) % word

-- `CountingRead::read`, on the counter; what the inner reader gives is an argument.
unfoldable pub read : Result ℕ → Exec ℕ ℕ
read (err reason) bytes = (err reason, bytes)
read (ok n) bytes = (ok n, fetch_add bytes n)

-- `CountingReader::get_bytes`: the length is counted before the bytes are asked for.
unfoldable pub get_bytes : ℕ → Result Bytes → Exec ℕ Bytes
get_bytes length inner bytes = (inner, fetch_add bytes length)

-- `fst_index_bytes`: what `WalkDir` gives is an argument, `none` for an entry that it could not read,
-- and otherwise the name of the entry and its size.
unfoldable pub add_sizes : Str → ℕ → List (Option (Str × Result ℕ)) → Result ℕ
add_sizes target total [] = ok total
add_sizes target total (none ∷ entries) = add_sizes target total entries
add_sizes target total (some (name, size) ∷ entries) =
    let rest = (size >>= λ n. add_sizes target ((total + n) % word) entries) in
    let next = add_sizes target total entries in if str_eq name target then rest else next

unfoldable pub fst_index_bytes : Str → List (Option (Str × Result ℕ)) → Result ℕ
unfolding add_sizes
fst_index_bytes column entries = add_sizes (column ++ codes ".fst") 0 entries

module _ (Filter : Type 0) (check : Filter → Str → Bool) where
  -- What `get_row_group` gives: an error, or a reader that has a filter for some columns, with the
  -- bytes that were handed out for it.
  pub data Group : Type 0 where
    no_reader : Group
    reader : ℕ → (ℕ → Option Filter) → Group

  -- An opened file, with the bytes that were handed out to open it.
  pub record ProbedFile : Type 0 where
    pub columns : List Str
    pub groups : List Group
    pub opening : ℕ

  -- `columns().iter().position(|c| c.name() == column)`
  unfoldable pub column_index : Str → List Str → Option ℕ
  column_index name [] = none
  column_index name (c ∷ cs) =
      if str_eq c name
      then some 0
      else elim (column_index name cs) [ none ↦ none | some i ↦ some (suc i) ]

  -- `.ok_or_else(|| anyhow!("column {column} not found"))`
  abbrev pub found_column : Option ℕ → Result ℕ
  found_column none = err no_column
  found_column (some i) = ok i

  -- `if let Some(sbbf) = … && sbbf.check(&value)`
  abbrev pub may_hold : Str → Option Filter → Bool
  may_hold value none = false
  may_hold value (some sbbf) = check sbbf value

  -- The row groups that match, and the counter.
  unfoldable pub probe_groups : ℕ → Str → ℕ → List Group → ℕ → Result (List ℕ × ℕ)
  probe_groups col_idx value rg [] bytes = ok ([], bytes)
  probe_groups col_idx value rg (no_reader ∷ gs) bytes = err io
  probe_groups col_idx value rg (reader n filters ∷ gs) bytes = do
    rest ← probe_groups col_idx value (suc rg) gs (fetch_add bytes n)
    ok ((if may_hold value (filters col_idx) then rg ∷ rest.0 else rest.0), rest.1)

  unfoldable pub probe_bloom : ProbedFile → Str → Str → Result (List ℕ × ℕ)
  unfolding column_index probe_groups
  probe_bloom file column value = do
    col_idx ← found_column (column_index column file.columns)
    probe_groups col_idx value 0 file.groups (fetch_add 0 file.opening)

  -- `if !hit[i] && sbbf.check(v) { hit[i] = true; }` for each value: a value with its mark.
  abbrev pub mark : Filter → Str × Bool → Str × Bool
  mark sbbf (value, hit) = (value, if not hit && check sbbf value then true else hit)

  abbrev pub mark_group : Option Filter → List (Str × Bool) → List (Str × Bool)
  mark_group none hits = hits
  mark_group (some sbbf) hits = map (mark sbbf) hits

  unfoldable pub mark_groups :
      ℕ → List Group → List (Str × Bool) → ℕ → Result (List (Str × Bool) × ℕ)
  mark_groups col_idx [] hits bytes = ok (hits, bytes)
  mark_groups col_idx (no_reader ∷ gs) hits bytes = err io
  mark_groups col_idx (reader n filters ∷ gs) hits bytes =
      mark_groups col_idx gs (mark_group (filters col_idx) hits) (fetch_add bytes n)

  -- `hit.iter().filter(|&&h| h).count()`
  abbrev pub count_hits : List (Str × Bool) → ℕ
  count_hits [] = 0
  count_hits ((value, hit) ∷ hits) = (if hit then 1 else 0) + count_hits hits

  unfoldable pub probe_blooms_multi : ProbedFile → Str → List Str → Result (ℕ × ℕ)
  unfolding column_index mark_groups
  probe_blooms_multi file column values = do
    col_idx ← found_column (column_index column file.columns)
    hits ← mark_groups col_idx file.groups (map (λ v. (v, false)) values) (fetch_add 0 file.opening)
    ok (count_hits hits.0, hits.1)
