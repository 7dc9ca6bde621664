-- ===== src/Base/Results.antt =====
-- A call that may throw. A transaction that throws is rolled back, so an error carries no state.
use mathlib.Core.Path.{◌≡◌, refl}
use mathlib.Core.Logic.{◌↔◌}
use native.Mathlib.Omega.{arith}
use mathlib.Core.Bool.{Bool, true, false}
use mathlib.Core.Option.{Option, none, some}

-- The HTTP exceptions that the services throw, without their texts.
pub data Exception : Type 0 where
  bad_request forbidden not_found conflict internal_server_error : Exception

pub data Result {ℓ} (A : Type ℓ) : Type ℓ where
  err : Exception → Result A
  ok : A → Result A

module _ {ℓ κ} {A : Type ℓ} {B : Type κ} where
  infixl 5 ◌>>=◌
  -- An exception ends the call.
  abbrev pub ◌>>=◌ : Result A → (A → Result B) → Result B
  err e >>= rest = err e
  ok a >>= rest = rest a

  abbrev pub map_result : (A → B) → Result A → Result B
  map_result f (err e) = err e
  map_result f (ok a) = ok (f a)

module _ {ℓ} {A : Type ℓ} where
  infixl 5 ◌>>◌
  -- A check, and what comes after it.
  abbrev pub ◌>>◌ : Result (Unit {0}) → Result A → Result A
  check >> rest = check >>= λ _. rest

-- `if (!test) throw e`
abbrev pub require : Bool → Exception → Result (Unit {0})
require true e = ok tt
require false e = err e

-- `if (!value) throw e`
abbrev pub or_throw {ℓ} : {A : Type ℓ} → Option A → Exception → Result A
or_throw none e = err e
or_throw (some a) e = ok a

module _ {ℓ κ} {A : Type ℓ} {B : Type κ} where
  pub >>=-err : (m : Result A) (f : A → Result B) {e : Exception} → m ≡ err e → (m >>= f) ≡ err e
  >>=-err m f h = rw h refl

  -- Inversion of a call that did not throw.
  pub >>=-eq-ok :
      (call : Result A) (rest : A → Result B) {b : B}
      → (call >>= rest) ≡ ok b
      → (a : A) × (call ≡ ok a) × (rest a ≡ ok b)
  >>=-eq-ok (err e) rest h = cc
  >>=-eq-ok (ok a) rest h = (a, refl, h)

pub require-eq-ok {ℓ} :
    {B : Type ℓ} (t : Bool) (e : Exception) (k : Result B) {b : B}
    → (require t e >> k) ≡ ok b
    → (t ≡ true) × (k ≡ ok b)
require-eq-ok true e k h = (refl, h)
require-eq-ok false e k h = cc

pub or_throw-eq-ok {ℓ κ} :
    {A : Type ℓ} {B : Type κ} (o : Option A) (e : Exception) (f : A → Result B) {b : B}
    → (or_throw o e >>= f) ≡ ok b
    → (a : A) × (o ≡ some a) × (f a ≡ ok b)
or_throw-eq-ok none e f h = cc
or_throw-eq-ok (some a) e f h = (a, refl, h)

-- The state that a call leaves.
pub state_of_ok {ℓ κ} :
    {A : Type ℓ} {S : Type κ} {a b : A} {s t : S}
    → ◌≡◌ {A = Result (A × S)} (ok (a, s)) (ok (b, t))
    → s ≡ t
state_of_ok e = cc

pub ok-injective {ℓ} : {A : Type ℓ} {a b : A} → ◌≡◌ {A = Result A} (ok a) (ok b) → a ≡ b
ok-injective e = cc

-- Two checks, one after the other.
pub both_iff : (m n : Result (Unit {0})) → ((m >> n) ≡ ok tt) ↔ ((m ≡ ok tt) × (n ≡ ok tt))
both_iff (ok tt) n = (λ h. (refl, h), λ h. h.1)
both_iff (err e) n = (λ h. cc, λ h. cc)

pub require_iff : (t : Bool) → (require t bad_request ≡ ok tt) ↔ (t ≡ true)
require_iff t = (λ h. ground arith, λ h. rw h refl)
