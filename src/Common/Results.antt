-- ===== src/Common/Results.antt =====
-- What a method that may raise returns: a value, or the error that it raises.
use mathlib.Core.Path.{◌≡◌, refl, ap}
use mathlib.Core.Logic.{◌⊎◌, inl, inr}
use mathlib.Core.Bool.{Bool, true, false}

pub data Result {ℓ κ} (E : Type ℓ) (A : Type κ) : Type (ℓ ⊔ κ) where
  ok : A → Result E A
  raise : E → Result E A

-- `if not test: raise e`
abbrev pub require {ℓ} : {E : Type ℓ} → Bool → E → Result E (Unit {0})
require test e = elim test [ true ↦ ok tt | false ↦ raise e ]

-- A call, and what follows it with the value that it returned.
infixl 5 ◌>>=◌
abbrev pub ◌>>=◌ {ℓ κ μ} :
    {E : Type ℓ} {A : Type κ} {B : Type μ} (call : Result E A) (next : A → Result E B) → Result E B
call >>= next = elim call [ ok value ↦ next value | raise e ↦ raise e ]

-- A call that returns nothing, and what follows it.
infixl 5 ◌>>◌
abbrev pub ◌>>◌ {ℓ κ} :
    {E : Type ℓ} {B : Type κ} (call : Result E (Unit {0})) (rest : Result E B) → Result E B
call >> rest = elim call [ ok done ↦ rest | raise e ↦ raise e ]

module _ {ℓ} {E : Type ℓ} where
  pub require-eq-ok : (b : Bool) (e : E) → require b e ≡ ok tt → b ≡ true
  require-eq-ok true e h = refl
  require-eq-ok false e h = absurd (cc)

module _ {ℓ κ} {E : Type ℓ} {A : Type κ} where
  pub ok_injective : {a b : A} → ◌≡◌ {A = Result E A} (ok a) (ok b) → a ≡ b
  ok_injective {a} h = ap (λ r. elim r [ ok x ↦ x | raise e ↦ a ]) h

  pub Result-cases : (r : Result E A) → ((a : A) × (r ≡ ok a)) ⊎ ((e : E) × (r ≡ raise e))
  Result-cases (ok a) = inl (a, refl)
  Result-cases (raise e) = inr (e, refl)

-- A chain that returned went through a call that returned.
module _ {ℓ κ μ} {E : Type ℓ} {A : Type κ} {B : Type μ} where
  pub >>=-eq-ok :
      (call : Result E A) (next : A → Result E B) {result : B}
      → (call >>= next) ≡ ok result
      → (value : A) × (call ≡ ok value) × (next value ≡ ok result)
  >>=-eq-ok call next {result} returned = elim (Result-cases call) [
    | inr (e, failed) ↦ absurd (let wrong = rw failed at returned in cc)
    | inl (value, done) ↦ (value, done, rw done at returned)
  ]

module _ {ℓ κ} {E : Type ℓ} {B : Type κ} where
  pub >>-eq-ok :
      (call : Result E (Unit {0})) (rest : Result E B) {result : B}
      → (call >> rest) ≡ ok result
      → (call ≡ ok tt) × (rest ≡ ok result)
  >>-eq-ok call rest returned = elim (Result-cases call) [
    | inr (e, failed) ↦ absurd (let wrong = rw failed at returned in cc)
    | inl (value, done) ↦ (done, rw done at returned)
  ]
