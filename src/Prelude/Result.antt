-- ===== src/Prelude/Result.antt =====
-- Rust's `Result`, with `?` as the bind of a `do` block.
use mathlib.Core.Path.{◌≡◌, refl}
use mathlib.Core.Bool.{Bool, true, false}
use mathlib.Core.Logic.{◌⊎◌, inl, inr}
use mathlib.Core.Option.{Option, none, some}

pub data Result {ℓ κ} (A : Type ℓ) (E : Type κ) : Type (ℓ ⊔ κ) where
  ok : A → Result A E
  err : E → Result A E

-- `?`: the value, or an early return of the error.
infixl 5 ◌>>=◌ ◌>>◌
abbrev pub ◌>>=◌ {ℓ κ μ} :
    {A : Type ℓ} {E : Type κ} {B : Type μ} → Result A E → (A → Result B E) → Result B E
err failure >>= next = err failure
ok value >>= next = next value

-- The same for a test, which has no value.
abbrev pub ◌>>◌ {κ μ} : {E : Type κ} {B : Type μ} → Result (Unit {0}) E → Result B E → Result B E
test >> rest = test >>= λ _. rest

-- An early `return Err(e)` unless the test passes.
abbrev pub guard {κ} : {E : Type κ} → Bool → E → Result (Unit {0}) E
guard true e = ok tt
guard false e = err e

-- `ok_or(e)` on an option, and `map_err(|_| e)` on a library's result.
abbrev pub ok_or {ℓ κ} : {A : Type ℓ} {E : Type κ} → Option A → E → Result A E
ok_or none e = err e
ok_or (some a) e = ok a

-- `map_err(f)`.
abbrev pub map_err {ℓ κ μ} :
    {A : Type ℓ} {E : Type κ} {F : Type μ} → (E → F) → Result A E → Result A F
map_err f (ok a) = ok a
map_err f (err e) = err (f e)

module _ {ℓ κ μ} {A : Type ℓ} {E : Type κ} {B : Type μ} where
  -- A chain that ends well passed its first step.
  pub >>=-eq-ok :
      {y : B} (step : Result A E) (next : A → Result B E) (ended : (step >>= next) ≡ ok y)
      → (x : A) × (step ≡ ok x) × (next x ≡ ok y)
  >>=-eq-ok (err e) next ended = cc
  >>=-eq-ok (ok x) next ended = (x, refl, ended)

pub Result-cases {ℓ κ} :
    {A : Type ℓ} {E : Type κ} (r : Result A E) → ((a : A) × (r ≡ ok a)) ⊎ ((e : E) × (r ≡ err e))
Result-cases (ok a) = inl (a, refl)
Result-cases (err e) = inr (e, refl)

pub guard-eq-ok {κ} : {E : Type κ} (b : Bool) (e : E) {u : Unit {0}} → guard b e ≡ ok u → b ≡ true
guard-eq-ok true e h = refl
guard-eq-ok false e h = cc

pub ok_or-eq-ok {ℓ κ} :
    {A : Type ℓ} {E : Type κ} (o : Option A) (e : E) {a : A} → ok_or o e ≡ ok a → o ≡ some a
ok_or-eq-ok none e h = cc
ok_or-eq-ok (some a) e h = cc

pub map_err-eq-ok {ℓ κ μ} :
    {A : Type ℓ} {E : Type κ} {F : Type μ} (f : E → F) (r : Result A E) {a : A}
    → map_err f r ≡ ok a
    → r ≡ ok a
map_err-eq-ok f (ok x) h = cc
map_err-eq-ok f (err e) h = cc

-- The same for a chain whose first step maps its error, as a value that a proof of many steps takes
-- apart one by one.
pub data Passed {ℓ κ μ ν} {A : Type ℓ} {E : Type κ} {F : Type μ} {B : Type ν} (r : Result A E)
    (next : A → Result B F) (y : B) : Type (ℓ ⊔ κ ⊔ μ ⊔ ν) where
  passed : (x : A) → r ≡ ok x → next x ≡ ok y → Passed r next y

pub >>=-Passed {ℓ κ ν} :
    {A : Type ℓ} {E : Type κ} {B : Type ν} {y : B} (r : Result A E) {next : A → Result B E}
    → (r >>= next) ≡ ok y
    → Passed r next y
>>=-Passed (err e) ended = cc
>>=-Passed (ok x) ended = passed x refl ended

pub map_err-Passed {ℓ κ μ ν} :
    {A : Type ℓ} {E : Type κ} {F : Type μ} {B : Type ν} {y : B} (f : E → F) (r : Result A E)
    (next : A → Result B F)
    → (map_err f r >>= next) ≡ ok y
    → Passed r next y
map_err-Passed f (err e) next ended = cc
map_err-Passed f (ok x) next ended = passed x refl ended

pub guard-Passed {κ ν} :
    {E : Type κ} {B : Type ν} {y : B} (test : Bool) (e : E) {rest : Result B E}
    → (guard test e >> rest) ≡ ok y
    → Passed (guard test e) (λ _. rest) y
guard-Passed true e ended = passed tt refl ended
guard-Passed false e ended = cc
