-- ===== src/Prelude/Exec.antt =====
-- Methods that change the world and may fail: what was written before a failure stays written.
use pdq.Prelude.Result.{Result, ok, err}

abbrev pub Exec {ℓ} : Type ℓ → Type ℓ → Type ℓ
Exec W T = W → Result T × W

module _ {ℓ} {W T : Type ℓ} where
  -- `?` on the result of a computation that changes nothing
  abbrev pub lift : Result T → Exec W T
  lift outcome world = (outcome, world)

  abbrev pub pure : T → Exec W T
  pure value = lift (ok value)

  abbrev pub gets : (W → Result T) → Exec W T
  gets read world = lift (read world) world

module _ {ℓ} {W T U : Type ℓ} where
  abbrev pub and_then : (T → Exec W U) → Result T × W → Result U × W
  and_then k (err reason, world) = (err reason, world)
  and_then k (ok value, world) = k value world

  infixl 5 ◌>>=◌ ◌>>◌
  abbrev pub ◌>>=◌ : Exec W T → (T → Exec W U) → Exec W U
  ◌>>=◌ action k world = and_then k (action world)

  abbrev pub ◌>>◌ : Exec W T → Exec W U → Exec W U
  ◌>>◌ action next world = and_then (λ _. next) (action world)
