-- ===== src/Index/Keys/Laws.antt =====
-- The keys of an index: ascending, well formed, and one for each value of each row group.
use pdq.Prelude.{
  ℕ, suc, ◌+◌, ◌≤◌, ◌<◌, ◌≡◌, refl, Bool, true, ◌||◌, Option, none, some, List, [], ◌∷◌, arith, All,
  any, any-append, length, Bool-cases, inl, inr,
}
use pdq.Prelude.Result.{ok, >>=-eq-ok}
use pdq.Text.{Str}
use pdq.Text.Order.{lt_bytes, lt_bytes_trans, lt_bytes_connected}
use pdq.Text.Decimal.{word}
use pdq.KeyFormat.{build_key}
use pdq.Fst.{IsAscendingKeys}
use pdq.Parquet.{
  Column, strings, batch, broken, RowGroup, column_by_name, non_null, column_values, group_values,
  is_readable,
}
use pdq.Parquet.Laws.{any_value, AllReadable}
use pdq.Index.Keys.{
  btree_insert, insert_values, insert_column, insert_batches, insert_groups, index_keys,
}

any-btree_insert :
    (q : Str → Bool) (k : Str) (js : List Str) → any q (btree_insert k js) ≡ (q k || any q js)
unfolding btree_insert
any-btree_insert q k [] = refl
any-btree_insert q k (j ∷ js) = ground (arith, any-btree_insert q k js, lt_bytes_connected k j)

All-btree_insert {ℓ} :
    (P : Str → Type ℓ) (k : Str) (js : List Str) → P k → All P js → All P (btree_insert k js)
unfolding btree_insert
All-btree_insert P k [] h hs = (h, tt)
All-btree_insert P k (j ∷ js) h (hj, hs) = elim (Bool-cases (lt_bytes k j)) [
  | inl lt ↦ rw lt (h, (hj, hs))
  | inr ge ↦ elim (Bool-cases (lt_bytes j k)) [
    | inl gt ↦ rw (ge, gt) (hj, All-btree_insert P k js h hs)
    | inr eq ↦ rw (ge, eq) (hj, hs)
  ]
]

above_trans :
    (k j : Str) (js : List Str)
    → lt_bytes k j ≡ true
    → All (λ i. lt_bytes j i ≡ true) js
    → All (λ i. lt_bytes k i ≡ true) js
above_trans k j [] h hs = tt
above_trans k j (i ∷ js) h (hi, hs) = (lt_bytes_trans k j i h hi, above_trans k j js h hs)

pub btree_insert-IsAscendingKeys :
    (k : Str) (js : List Str) → IsAscendingKeys js → IsAscendingKeys (btree_insert k js)
unfolding btree_insert
btree_insert-IsAscendingKeys k [] h = (tt, tt)
btree_insert-IsAscendingKeys k (j ∷ js) (hj, h) = elim (Bool-cases (lt_bytes k j)) [
  | inl lt ↦ rw lt ((lt, above_trans k j js lt hj), (hj, h))
  | inr ge ↦ elim (Bool-cases (lt_bytes j k)) [
    | inl gt ↦
        rw (ge, gt)
          (
            All-btree_insert (λ i. lt_bytes j i ≡ true) k js gt hj,
            btree_insert-IsAscendingKeys k js h,
          )
    | inr eq ↦ rw (ge, eq) (hj, h)
  ]
]

-- A key that the indexer can write.
abbrev pub IsKey : Str → Type 0
IsKey k = (v : Str) × (g : ℕ) × (g < word) × (k ≡ build_key v g)

-- What is known of the keys while the loops run.
pub record Holds (keys : List Str) (found : (Str → Bool) → Bool) : Type 0 where
  pub ascending : IsAscendingKeys keys
  pub well_formed : All IsKey keys
  pub any_key : (q : Str → Bool) → any q keys ≡ found q

insert_key-Holds :
    (v : Str) (g : ℕ) (keys : List Str)
    → g < word
    → IsAscendingKeys keys
    → All IsKey keys
    → Holds (btree_insert (build_key v g) keys) (λ q. q (build_key v g) || any q keys)
insert_key-Holds v g keys fits up wf = record {
  ascending = btree_insert-IsAscendingKeys (build_key v g) keys up;
  well_formed = All-btree_insert IsKey (build_key v g) keys (v, g, fits, refl) wf;
  any_key = λ q. any-btree_insert q (build_key v g) keys;
}

insert_values-Holds :
    (g : ℕ) (vs : List (Option Str)) (keys : List Str)
    → g < word
    → IsAscendingKeys keys
    → All IsKey keys
    → Holds
        (insert_values g vs keys)
        (λ q. any (λ v. q (build_key v g)) (non_null vs) || any q keys)
unfolding insert_values
insert_values-Holds g [] keys fits up wf = record {
  ascending = up;
  well_formed = wf;
  any_key = λ q. refl;
}
insert_values-Holds g (none ∷ vs) keys fits up wf = insert_values-Holds g vs keys fits up wf
insert_values-Holds g (some v ∷ vs) keys fits up wf =
    let one = insert_key-Holds v g keys fits up wf in
    let rest =
      insert_values-Holds g vs (btree_insert (build_key v g) keys) fits one.ascending
        one.well_formed in
    record {
      ascending = rest.ascending;
      well_formed = rest.well_formed;
      any_key = λ q. ground (arith, rest.any_key q, one.any_key q);
    }

insert_column-Holds :
    (g : ℕ) (c : Option Column) (keys : List Str)
    → g < word
    → IsAscendingKeys keys
    → All IsKey keys
    → Holds
        (insert_column g c keys)
        (λ q. any (λ v. q (build_key v g)) (column_values c) || any q keys)
unfolding insert_column
insert_column-Holds g (some (strings arr)) keys fits up wf =
    insert_values-Holds g arr keys fits up wf
insert_column-Holds g _ keys fits up wf = record {
  ascending = up;
  well_formed = wf;
  any_key = λ q. refl;
}

insert_batches-Holds :
    (column : Str) (g : ℕ) (bs : RowGroup) (keys : List Str)
    → g < word
    → is_readable bs ≡ true
    → IsAscendingKeys keys
    → All IsKey keys
    → (keys' : List Str) × (insert_batches column g bs keys ≡ ok keys')
      × Holds keys' (λ q. any (λ v. q (build_key v g)) (group_values column bs) || any q keys)
unfolding insert_batches
insert_batches-Holds column g [] keys fits ok? up wf =
    (keys, refl, record { ascending = up; well_formed = wf; any_key = λ q. refl })
insert_batches-Holds column g (broken ∷ bs) keys fits ok? up wf = cc
insert_batches-Holds column g (batch b ∷ bs) keys fits ok? up wf =
    let c = column_by_name column b in
    let one = insert_column-Holds g c keys fits up wf in
    let (keys', done, rest) =
      insert_batches-Holds column g bs (insert_column g c keys) fits ok? one.ascending
        one.well_formed in
    (
      keys',
      done,
      record {
        ascending = rest.ascending;
        well_formed = rest.well_formed;
        any_key = λ q. ground (
          arith,
          rest.any_key q,
          one.any_key q,
          any-append (λ v. q (build_key v g)) (column_values c) (group_values column bs),
        );
      },
    )

insert_groups-Holds :
    (column : Str) (g : ℕ) (gs : List RowGroup) (keys : List Str)
    → g + length gs ≤ word
    → AllReadable gs
    → IsAscendingKeys keys
    → All IsKey keys
    → (keys' : List Str) × (insert_groups column g gs keys ≡ ok keys')
      × Holds keys' (λ q. any_value (λ v h. q (build_key v h)) column g gs || any q keys)
unfolding insert_groups
insert_groups-Holds column g [] keys fits r up wf =
    (keys, refl, record { ascending = up; well_formed = wf; any_key = λ q. refl })
insert_groups-Holds column g (b ∷ bs) keys fits (hb, hbs) up wf =
    let (mid, e, one) = insert_batches-Holds column g b keys (omega arith) hb up wf in
    let (keys', done, rest) =
      insert_groups-Holds column (suc g) bs mid (omega arith) hbs one.ascending one.well_formed in
    (
      keys',
      rw e done,
      record {
        ascending = rest.ascending;
        well_formed = rest.well_formed;
        any_key = λ q. ground (arith, rest.any_key q, one.any_key q);
      },
    )

-- Where all of the file can be decoded, its keys are collected.
pub index_keys-Holds :
    (column : Str) (gs : List RowGroup)
    → length gs ≤ word
    → AllReadable gs
    → (keys : List Str) × (index_keys column gs ≡ ok keys)
      × Holds keys (λ q. any_value (λ v h. q (build_key v h)) column 0 gs)
unfolding index_keys
index_keys-Holds column gs fits r =
    let (keys, done, h) = insert_groups-Holds column 0 gs [] (omega arith) r tt tt in
    (
      keys,
      done,
      record {
        ascending = h.ascending;
        well_formed = h.well_formed;
        any_key = λ q. ground (arith, h.any_key q);
      },
    )

insert_batches-readable :
    (column : Str) (g : ℕ) (bs : RowGroup) (keys : List Str) {keys' : List Str}
    → insert_batches column g bs keys ≡ ok keys'
    → is_readable bs ≡ true
unfolding insert_batches
insert_batches-readable column g [] keys h = refl
insert_batches-readable column g (broken ∷ bs) keys h = cc
insert_batches-readable column g (batch b ∷ bs) keys h =
    insert_batches-readable column g bs (insert_column g (column_by_name column b) keys) h

insert_groups-AllReadable :
    (column : Str) (g : ℕ) (gs : List RowGroup) (keys : List Str) {keys' : List Str}
    → insert_groups column g gs keys ≡ ok keys'
    → AllReadable gs
unfolding insert_groups
insert_groups-AllReadable column g [] keys h = tt
insert_groups-AllReadable column g (b ∷ bs) keys h =
    let (mid, e, rest) =
      >>=-eq-ok (insert_batches column g b keys) (λ k. insert_groups column (suc g) bs k) h in
    (
      insert_batches-readable column g b keys e,
      insert_groups-AllReadable column (suc g) bs mid rest,
    )

-- A file of which some batch cannot be decoded gives no keys.
pub index_keys-AllReadable :
    (column : Str) (gs : List RowGroup) {keys : List Str}
    → index_keys column gs ≡ ok keys
    → AllReadable gs
unfolding index_keys
index_keys-AllReadable column gs h = insert_groups-AllReadable column 0 gs [] h
