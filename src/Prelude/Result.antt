-- ===== src/Prelude/Result.antt =====
-- `anyhow::Result`, with one error for each source of failure in the program.
use mathlib.Core.Path.{◌≡◌, refl}

pub data Error : Type 0 where
  io not_parquet bad_batch bad_fst bad_utf8 bad_int before_epoch plan : Error
  missing_index_dir missing_data_dir no_parquet_files bad_schema no_column : Error

-- `Err(reason)` or `Ok(value)`
pub data Result {ℓ} (T : Type ℓ) : Type ℓ where
  err : (reason : Error) → Result T
  ok : (value : T) → Result T

module _ {ℓ κ} {T : Type ℓ} {U : Type κ} where
  -- The operator `?`: an error ends the function.
  infixl 5 ◌>>=◌
  abbrev pub ◌>>=◌ : Result T → (T → Result U) → Result U
  ◌>>=◌ (err reason) k = err reason
  ◌>>=◌ (ok value) k = k value

  pub >>=-eq-ok :
      (r : Result T) (k : T → Result U) {u : U}
      → ◌>>=◌ r k ≡ ok u
      → (value : T) × (r ≡ ok value) × (k value ≡ ok u)
  >>=-eq-ok (err reason) k done = cc
  >>=-eq-ok (ok value) k done = (value, refl, done)

pub ok-injective {ℓ} : {T : Type ℓ} {a b : T} → ok a ≡ ok b → a ≡ b
ok-injective same = cc
