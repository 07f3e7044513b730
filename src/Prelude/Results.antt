-- ===== src/Prelude/Results.antt =====
-- Code that may raise `ValueError`. A handler catches every error of a call, so the message that
-- the exception carries is a value of a type of the caller's choice.
use mathlib.Core.Path.{◌≡◌, refl}
use mathlib.Core.Logic.{◌⊎◌, inl, inr}
use mathlib.Core.Bool.{Bool, true, false}

pub data Result {ℓ κ} (E : Type κ) (A : Type ℓ) : Type (ℓ ⊔ κ) where
  ok : A → Result E A
  err : E → Result E A

-- `if test: raise e`
abbrev pub raise_if {μ} : {E : Type μ} → Bool → E → Result E (Unit {0})
raise_if true error = err error
raise_if false error = ok tt

infixl 5 ◌>>=◌ ◌>>◌
abbrev pub ◌>>=◌ {ℓ κ μ} :
    {E : Type μ} {A : Type ℓ} {B : Type κ} → Result E A → (A → Result E B) → Result E B
err error >>= next = err error
ok value >>= next = next value

abbrev pub ◌>>◌ {ℓ μ} : {E : Type μ} {B : Type ℓ} → Result E (Unit {0}) → Result E B → Result E B
first >> second = first >>= λ done. second

-- What returned went through a value.
pub >>=-eq-ok {ℓ κ μ} :
    {E : Type μ} {A : Type ℓ} {B : Type κ} (first : Result E A) (next : A → Result E B) {done : B}
    → (first >>= next) ≡ ok done
    → (value : A) × (first ≡ ok value) × (next value ≡ ok done)
>>=-eq-ok (err error) next raised = cc
>>=-eq-ok (ok value) next returned = (value, refl, returned)

pub Result-cases {ℓ κ} :
    {E : Type κ} {A : Type ℓ} (r : Result E A) → ((a : A) × (r ≡ ok a)) ⊎ ((e : E) × (r ≡ err e))
Result-cases (ok a) = inl (a, refl)
Result-cases (err e) = inr (e, refl)

pub raise_if-ok {ℓ κ} :
    {E : Type κ} {A : Type ℓ} (test : Bool) (error : E) (next : Result E A) {a : A}
    → (raise_if test error >> next) ≡ ok a
    → (test ≡ false) × (next ≡ ok a)
raise_if-ok true error next h = cc
raise_if-ok false error next h = (refl, h)

-- What raised did so in the first part or in the second.
pub >>=-eq-err {ℓ κ μ} :
    {E : Type μ} {A : Type ℓ} {B : Type κ} (first : Result E A) (next : A → Result E B) {error : E}
    → (first >>= next) ≡ err error
    → (first ≡ err error) ⊎ ((value : A) × (first ≡ ok value) × (next value ≡ err error))
>>=-eq-err (err e) next h = inl (cc)
>>=-eq-err (ok value) next h = inr (value, refl, h)

pub raise_if-done {κ} :
    {E : Type κ} (test : Bool) (error : E) → raise_if test error ≡ ok tt → test ≡ false
raise_if-done true error h = cc
raise_if-done false error h = refl

pub ok_injective {ℓ κ} :
    {E : Type κ} {A : Type ℓ} {a b : A} → ◌≡◌ {A = Result E A} (ok a) (ok b) → a ≡ b
ok_injective h = cc
