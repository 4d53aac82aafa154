-- ===== src/Run/Prepare/Results.antt =====
-- What a step of the preparation that succeeds has gone through.
use ao_covenant.Base.{String, ◌≡◌, refl, arith, Outcome, ok, err}
use ao_covenant.Contract.Validate.{Error}
use ao_covenant.Run.Prepare.{PrepareError, of_path, of_host, of_contract, proceed}

pub of_path-ok :
    {A : Type 0} (out : Outcome String A) {value : A} → of_path out ≡ ok value → out ≡ ok value
of_path-ok (ok x) h = ground (arith, h)
of_path-ok (err e) h = cc

pub of_host-ok :
    {A : Type 0} (out : Outcome String A) {value : A} → of_host out ≡ ok value → out ≡ ok value
of_host-ok (ok x) h = ground (arith, h)
of_host-ok (err e) h = cc

pub ok-injective : {A : Type 0} {x y : A} → ◌≡◌ {A = Outcome PrepareError A} (ok x) (ok y) → x ≡ y
ok-injective h = cc h

pub of_contract-ok : (out : Outcome Error (Unit {0})) → of_contract out ≡ ok tt → out ≡ ok tt
of_contract-ok (ok tt) h = refl
of_contract-ok (err e) h = cc

pub proceed-ok :
    {World A B : Type 0} (step : World × Outcome PrepareError A)
    (rest : World → A → World × Outcome PrepareError B) {value : B}
    → (proceed step rest).1 ≡ ok value
    → (x : A) × (step.1 ≡ ok x) × ((rest step.0 x).1 ≡ ok value)
proceed-ok (world, ok x) rest h = (x, refl, h)
proceed-ok (world, err e) rest h = cc

-- The same, with the host that is left.
pub proceed-step :
    {World A B : Type 0} (step : World × Outcome PrepareError A)
    (rest : World → A → World × Outcome PrepareError B) (world : World) (value : B)
    → proceed step rest ≡ (world, ok value)
    → (x : A) × (step.1 ≡ ok x) × (rest step.0 x ≡ (world, ok value))
proceed-step (w, ok x) rest world value h = (x, refl, h)
proceed-step (w, err e) rest world value h = cc
