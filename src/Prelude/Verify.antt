-- ===== src/Prelude/Verify.antt =====
-- What a run of noexcept code gives: a value, or the abort of a failed VERIFY (condition_check.h).
use mathlib.Core.Path.{◌≡◌, refl}
use mathlib.Core.Bool.{Bool, true, false}
use mathlib.Core.Option.{Option, none, some}

pub data Outcome {ℓ} (A : Type ℓ) : Type ℓ where
  done : A → Outcome A
  aborted : Outcome A

infixl 5 ◌>>=◌ ◌>>◌
abbrev pub ◌>>=◌ {ℓ κ} : {A : Type ℓ} {B : Type κ} → Outcome A → (A → Outcome B) → Outcome B
done a >>= f = f a
aborted >>= f = aborted

abbrev pub ◌>>◌ {ℓ} : {B : Type ℓ} → Outcome (Unit {0}) → Outcome B → Outcome B
m >> k = m >>= λ _. k

-- VERIFY(condition, message)
abbrev pub verify : Bool → Outcome (Unit {0})
verify true = done tt
verify false = aborted

-- Result::GetValue of a lookup: it aborts where there is no value.
abbrev pub get_value {ℓ} : {A : Type ℓ} → Option A → Outcome A
get_value none = aborted
get_value (some a) = done a

pub >>=-eq-done {ℓ κ} :
    {A : Type ℓ} {B : Type κ} (m : Outcome A) (f : A → Outcome B) {b : B}
    → (m >>= f) ≡ done b
    → (a : A) × (m ≡ done a) × (f a ≡ done b)
>>=-eq-done (done a) f h = (a, refl, h)
>>=-eq-done aborted f h = cc

-- The value of a run, for use beside a proof that it does not abort.
abbrev pub value_or {ℓ} : {A : Type ℓ} → Outcome A → A → A
value_or (done a) d = a
value_or aborted d = d
