-- ===== src/Base/Http.antt =====
-- How a call ends: with a value, or with an exception of the web framework (its HTTP status).
use mathlib.Core.Path.{◌≡◌, refl}
use mathlib.Core.Logic.{◌⊎◌, inl, inr}
use mathlib.Core.Bool.{Bool, true, false}
use mathlib.Core.Option.{Option, none, some}
use native.Mathlib.Omega.{arith}

-- 400, 401, 402, 403, 404, 409, 429, 500 and 503.
pub data HttpError : Type 0 where
  bad_request unauthorized payment_required forbidden not_found conflict too_many_requests
        internal_error service_unavailable :
      HttpError

pub data Outcome {ℓ} (A : Type ℓ) : Type ℓ where
  ok : A → Outcome A
  fail : HttpError → Outcome A

infixl 5 ◌>>=◌ ◌>>◌
abbrev pub ◌>>=◌ {ℓ κ} : {A : Type ℓ} {B : Type κ} → Outcome A → (A → Outcome B) → Outcome B
ok a >>= f = f a
fail e >>= f = fail e

abbrev pub ◌>>◌ {ℓ} : {B : Type ℓ} → Outcome (Unit {0}) → Outcome B → Outcome B
m >> k = m >>= λ _. k

-- `if (!found) throw`
abbrev pub or_throw {ℓ} : {A : Type ℓ} → Option A → HttpError → Outcome A
or_throw none e = fail e
or_throw (some a) e = ok a

-- `if (!test) throw`
abbrev pub require : Bool → HttpError → Outcome (Unit {0})
require true e = ok tt
require false e = fail e

-- The state after a call: an exception leaves it as it was.
abbrev pub after {ℓ} : {A : Type ℓ} → A → Outcome A → A
after s (ok t) = t
after s (fail e) = s

pub Outcome-cases {ℓ} :
    {A : Type ℓ} (m : Outcome A) → ((a : A) × (m ≡ ok a)) ⊎ ((e : HttpError) × (m ≡ fail e))
Outcome-cases (ok a) = inl (a, refl)
Outcome-cases (fail e) = inr (e, refl)

pub >>=-eq-ok {ℓ κ} :
    {A : Type ℓ} {B : Type κ} (m : Outcome A) (f : A → Outcome B) (b : B)
    → (m >>= f) ≡ ok b
    → (a : A) × (m ≡ ok a) × (f a ≡ ok b)
>>=-eq-ok (ok a) f b h = (a, refl, h)
>>=-eq-ok (fail e) f b h = absurd (cc)

pub or_throw-eq-ok {ℓ} :
    {A : Type ℓ} (o : Option A) (e : HttpError) (a : A) → or_throw o e ≡ ok a → o ≡ some a
or_throw-eq-ok none e a h = absurd (cc)
or_throw-eq-ok (some b) e a h = ground arith

pub >>-eq-ok {ℓ} :
    {B : Type ℓ} (m : Outcome (Unit {0})) (k : Outcome B) (b : B)
    → (m >> k) ≡ ok b
    → (m ≡ ok tt) × (k ≡ ok b)
>>-eq-ok (ok _) k b h = (refl, h)
>>-eq-ok (fail e) k b h = absurd (cc)

pub require-eq-ok : (test : Bool) (e : HttpError) → require test e ≡ ok tt → test ≡ true
require-eq-ok true e h = refl
require-eq-ok false e h = absurd (cc)
