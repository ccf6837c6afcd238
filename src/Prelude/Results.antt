-- ===== src/Prelude/Results.antt =====
-- Code that raises: a value or an error, and `do` blocks over it.
use mathlib.Core.Path.{◌≡◌, refl}
use mathlib.Core.Logic.{◌⊎◌, inl, inr}
use mathlib.Core.Bool.{Bool, true, false}

pub data Result {ℓ κ} (E : Type ℓ) (A : Type κ) : Type (ℓ ⊔ κ) where
  ok : A → Result E A
  err : E → Result E A

-- `if not test: raise cause`
abbrev pub guard {ℓ} : {E : Type ℓ} → Bool → E → Result E (Unit {0})
guard false cause = err cause
guard true cause = ok tt

infixl 5 ◌>>=◌ ◌>>◌
abbrev pub ◌>>=◌ {ℓ κ μ} :
    {E : Type ℓ} {A : Type κ} {B : Type μ} → Result E A → (A → Result E B) → Result E B
err cause >>= next = err cause
ok value >>= next = next value

abbrev pub ◌>>◌ {ℓ κ} : {E : Type ℓ} {B : Type κ} → Result E (Unit {0}) → Result E B → Result E B
first >> second = first >>= λ done. second

-- Inversion of a successful bind, for proofs where the parts stay shut.
pub >>=-eq-ok {ℓ κ μ} :
    {E : Type ℓ} {A : Type κ} {B : Type μ} (run : Result E A) (next : A → Result E B) {answer : B}
    → (run >>= next) ≡ ok answer
    → (value : A) × (run ≡ ok value) × (next value ≡ ok answer)
>>=-eq-ok (err cause) next e = cc
>>=-eq-ok (ok value) next e = (value, refl, e)

pub >>-eq-ok {ℓ κ} :
    {E : Type ℓ} {B : Type κ} (test : Result E (Unit {0})) (next : Result E B) {answer : B}
    → (test >> next) ≡ ok answer
    → (test ≡ ok tt) × (next ≡ ok answer)
>>-eq-ok (err cause) next e = cc
>>-eq-ok (ok tt) next e = (refl, e)

pub guard-eq-ok {ℓ} : {E : Type ℓ} (test : Bool) (e : E) → guard test e ≡ ok tt → test ≡ true
guard-eq-ok true e h = refl
guard-eq-ok false e h = cc

pub err-injective {ℓ κ} :
    {E : Type ℓ} {A : Type κ} {d e : E} → Path (Result E A) (err d) (err e) → d ≡ e
err-injective h = cc

pub ok-injective {ℓ κ} :
    {E : Type ℓ} {A : Type κ} {a b : A} → Path (Result E A) (ok a) (ok b) → a ≡ b
ok-injective h = cc

pub Result-cases {ℓ κ} :
    {E : Type ℓ} {A : Type κ} (r : Result E A) → ((e : E) × (r ≡ err e)) ⊎ ((a : A) × (r ≡ ok a))
Result-cases (ok a) = inr (a, refl)
Result-cases (err e) = inl (e, refl)
