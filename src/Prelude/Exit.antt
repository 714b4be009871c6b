-- ===== src/Prelude/Exit.antt =====
-- How a run of the program ends: with a result, with an error that `main` returns, by
-- `std::process::exit`, or by a panic.
use Prim.Native.Nat.{ℕ}
use mathlib.Core.Path.{◌≡◌, refl, ap}
use mathlib.Core.Bool.{Bool, true, false}
use mathlib.Core.Option.{Option, none, some}
use pdq.Prelude.Result.{Error, Result, ok, err}
use pdq.Prelude.Exec.{Exec}

pub data Exit (T : Type 0) : Type 0 where
  finished : T → Exit T
  failed : Error → Exit T
  stopped : ℕ → Exit T
  panicked : Exit T

abbrev pub Run : Type 0 → Type 0 → Type 0
Run W T = W → Exit T × W

abbrev pub is_panic : {T : Type 0} → Exit T → Bool
is_panic panicked = true
is_panic _ = false

abbrev pub of_result : {T : Type 0} → Result T → Exit T
of_result (ok value) = finished value
of_result (err e) = failed e

module _ {W T : Type 0} where
  abbrev pub finish : T → Run W T
  finish value world = (finished value, world)

  -- `std::process::exit(code)`
  abbrev pub exit : ℕ → Run W T
  exit code world = (stopped code, world)

  -- `?` on what changes nothing
  abbrev pub try : Result T → Run W T
  try r world = (of_result r, world)

  -- `?` on what changes the world
  abbrev pub perform : Exec W T → Run W T
  perform action world = let (r, world') = action world in (of_result r, world')

  -- `.unwrap()`
  abbrev pub unwrap : Option T → Run W T
  unwrap none world = (panicked, world)
  unwrap (some value) world = (finished value, world)

pub unwrap-inv :
    {W T : Type 0} (o : Option T) (w w' : W) (value : T)
    → unwrap o w ≡ (finished value, w')
    → o ≡ some value
unwrap-inv none w w' value e = cc
unwrap-inv (some v) w w' value e = cc

pub finish-inv :
    {W T : Type 0} (v : T) (w w' : W) (value : T) → finish v w ≡ (finished value, w') → v ≡ value
finish-inv v w w' value e = cc

pub try-inv :
    {W T : Type 0} (r : Result T) (w w' : W) (value : T)
    → try r w ≡ (finished value, w')
    → (r ≡ ok value) × (w ≡ w')
try-inv (ok v) w w' value e = (cc, cc)
try-inv (err x) w w' value e = (absurd (cc), absurd (cc))

module _ {W T U : Type 0} where
  abbrev pub proceed : (T → Run W U) → Exit T × W → Exit U × W
  proceed k (finished value, world) = k value world
  proceed k (failed e, world) = (failed e, world)
  proceed k (stopped code, world) = (stopped code, world)
  proceed k (panicked, world) = (panicked, world)

  infixl 5 ◌>>=◌
  abbrev pub ◌>>=◌ : Run W T → (T → Run W U) → Run W U
  ◌>>=◌ action k world = proceed k (action world)

  proceed-inv :
      (k : T → Run W U) (x : Exit T) (w w' : W) (u : U)
      → proceed k (x, w) ≡ (finished u, w')
      → (value : T) × (x ≡ finished value) × (k value w ≡ (finished u, w'))
  proceed-inv k (finished value) w w' u e = (value, refl, e)
  proceed-inv k (failed r) w w' u e = cc
  proceed-inv k (stopped code) w w' u e = cc
  proceed-inv k panicked w w' u e = cc

  -- Two actions in turn, both finished.
  pub record Both (m : Run W T) (k : T → Run W U) (w w' : W) (u : U) : Type 0 where
    pub value : T
    pub middle : W
    pub first : m w ≡ (finished value, middle)
    pub second : k value middle ≡ (finished u, w')

  pub >>=-finished :
      (m : Run W T) (k : T → Run W U) (w w' : W) (u : U)
      → (m >>= k) w ≡ (finished u, w')
      → Both m k w w' u
  >>=-finished m k w w' u e =
      let (value, first, second) = proceed-inv k (m w).0 (m w).1 w' u e in
      record {
        value = value;
        middle = (m w).1;
        first = ap (λ (x : Exit T). (x, (m w).1)) first;
        second = second;
      }

-- No run of the action ends in a panic.
pub record NeverPanics {W T : Type 0} (m : Run W T) : Type 0 where
  pub calm : (world : W) → is_panic (m world).0 ≡ false

pub of_result-calm : {T : Type 0} (r : Result T) → is_panic (of_result r) ≡ false
of_result-calm (ok value) = refl
of_result-calm (err e) = refl

module _ {W T : Type 0} where
  pub NeverPanics-finish : (value : T) → NeverPanics {W = W} (finish value)
  NeverPanics-finish value = record { calm = λ world. refl }

  pub NeverPanics-exit : (code : ℕ) → NeverPanics {W = W} {T = T} (exit code)
  NeverPanics-exit code = record { calm = λ world. refl }

  pub NeverPanics-try : (r : Result T) → NeverPanics {W = W} (try r)
  NeverPanics-try r = record { calm = λ world. of_result-calm r }

  pub NeverPanics-perform : (action : Exec W T) → NeverPanics (perform action)
  NeverPanics-perform action = record { calm = λ world. of_result-calm (action world).0 }

  pub NeverPanics-unwrap :
      (o : Option T) (value : T) → o ≡ some value → NeverPanics {W = W} (unwrap o)
  NeverPanics-unwrap o value e = rw e (record { calm = λ world. refl })

module _ {W T U : Type 0} where
  proceed-calm :
      (k : T → Run W U) (x : Exit T) (world : W)
      → ((value : T) → NeverPanics (k value))
      → is_panic x ≡ false
      → is_panic (proceed k (x, world)).0 ≡ false
  proceed-calm k (finished value) world h c = (h value).calm world
  proceed-calm k (failed e) world h c = refl
  proceed-calm k (stopped code) world h c = refl
  proceed-calm k panicked world h c = c

  pub NeverPanics-bind :
      (m : Run W T) (k : T → Run W U)
      → NeverPanics m
      → ((value : T) → NeverPanics (k value))
      → NeverPanics (m >>= k)
  NeverPanics-bind m k hm hk = record {
    calm = λ world. proceed-calm k (m world).0 (m world).1 hk (hm.calm world);
  }

module _ {W T U : Type 0} where
  after-calm :
      (m : Run W T) (k : T → Run W U) (world : W) (x : Exit T)
      → (m world).0 ≡ x
      → is_panic x ≡ false
      → ((value : T) → m world ≡ (finished value, (m world).1) → NeverPanics (k value))
      → is_panic (proceed k (x, (m world).1)).0 ≡ false
  after-calm m k world (finished value) e c h =
      (h value (ap (λ (y : Exit T). (y, (m world).1)) e)).calm (m world).1
  after-calm m k world (failed r) e c h = refl
  after-calm m k world (stopped code) e c h = refl
  after-calm m k world panicked e c h = c

  -- The second action may rely on what the first finished with.
  pub NeverPanics-after :
      (m : Run W T) (k : T → Run W U)
      → NeverPanics m
      → ((world world' : W) (value : T)
          → m world ≡ (finished value, world')
          → NeverPanics (k value))
      → NeverPanics (m >>= k)
  NeverPanics-after m k hm hk = record {
    calm = λ world.
        after-calm m k world (m world).0 refl (hm.calm world)
          (λ value e. hk world (m world).1 value e);
  }
