-- ===== src/Prelude/Result.antt =====
-- A call that may raise: `err` carries the exception.
use failure_prediction.Prelude.{Bool, true, false, ◌≡◌, refl, ◌⊎◌, inl, inr}

pub data Result {ℓ} (E : Type 0) (A : Type ℓ) : Type ℓ where
  err : E → Result E A
  ok : A → Result E A

module _ {E : Type 0} where
  -- `if test: raise exception`
  abbrev pub raise_if : Bool → E → Result E (Unit {0})
  raise_if test exception = elim test [ true ↦ err exception | false ↦ ok tt ]

  infixl 5 ◌>>=◌ ◌>>◌
  abbrev pub ◌>>=◌ {ℓ κ} : {X : Type ℓ} {Y : Type κ} → Result E X → (X → Result E Y) → Result E Y
  err exception >>= k = err exception
  ok x >>= k = k x

  abbrev pub ◌>>◌ {ℓ} : {Y : Type ℓ} → Result E (Unit {0}) → Result E Y → Result E Y
  first >> second = first >>= λ _. second

  pub Result-cases {ℓ} :
      {A : Type ℓ} (m : Result E A) → ((a : A) × (m ≡ ok a)) ⊎ ((e : E) × (m ≡ err e))
  Result-cases (ok a) = inl (a, refl)
  Result-cases (err e) = inr (e, refl)

  -- A chain that gives a result has one at each link.
  pub bind_ok {ℓ κ} :
      {A : Type ℓ} {B : Type κ} (m : Result E A) (f : A → Result E B) (b : B)
      → (m >>= f) ≡ ok b
      → (a : A) × (m ≡ ok a) × (f a ≡ ok b)
  bind_ok (ok a) f b h = (a, refl, h)
  bind_ok (err e) f b h = cc
