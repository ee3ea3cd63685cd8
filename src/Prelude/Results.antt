-- ===== src/Prelude/Results.antt =====
-- Errors as values, with the binds that `do` uses.
use mathlib.Core.Path.{◌≡◌, refl}
use mathlib.Core.Logic.{◌⊎◌, inl, inr}
use mathlib.Core.Bool.{Bool, true, false}
use mathlib.Core.Option.{Option, none, some}
use native.Mathlib.Omega.{arith}
use swarm_intelligence_engin.Prelude.Tests.{if◌then◌else◌}

pub data Result {ℓ κ} (E : Type ℓ) (A : Type κ) : Type (ℓ ⊔ κ) where
  ok : A → Result E A
  err : E → Result E A

module _ {ℓ} {E : Type ℓ} where
  infixl 5 ◌>>=◌
  unfoldable pub ◌>>=◌ {κ μ} :
      {A : Type κ} {B : Type μ} → Result E A → (A → Result E B) → Result E B
  ok a >>= f = f a
  err e >>= f = err e

  infixl 5 ◌>>◌
  abbrev pub ◌>>◌ {κ} : {B : Type κ} → Result E (Unit {0}) → Result E B → Result E B
  m >> k = m >>= λ _. k

  abbrev pub guard : Bool → E → Result E (Unit {0})
  guard true e = ok tt
  guard false e = err e

  -- `Option::ok_or`.
  abbrev pub ok_or {κ} : {A : Type κ} → Option A → E → Result E A
  ok_or none e = err e
  ok_or (some a) e = ok a

  -- What a bind that succeeds has gone through.
  pub >>=-eq-ok {κ μ} :
      {A : Type κ} {B : Type μ} (m : Result E A) (f : A → Result E B) {b : B}
      → (m >>= f) ≡ ok b
      → (a : A) × (m ≡ ok a) × (f a ≡ ok b)
  unfolding ◌>>=◌
  >>=-eq-ok (ok a) f h = (a, refl, h)
  >>=-eq-ok (err e) f h = cc

  -- The same for a goal: the steps of a chain are taken one after the other.
  pub through {κ μ ν} :
      {A : Type κ} {B : Type μ} {C : Type ν} (m : Result E A) (f : A → Result E B) {b : B}
      → (m >>= f) ≡ ok b
      → ((a : A) → m ≡ ok a → f a ≡ ok b → C)
      → C
  through m f h k = let (a, e, g) = >>=-eq-ok m f h in k a e g

  -- A test that guards a success has passed.
  pub if-eq-ok {κ} :
      {A : Type κ} (c : Bool) (e : E) {a b : A}
      → (if c then ok a else err e) ≡ ok b
      → (c ≡ true) × (a ≡ b)
  if-eq-ok c e h = ground arith

  pub guard-eq-ok : (c : Bool) (e : E) {u : Unit {0}} → guard c e ≡ ok u → c ≡ true
  guard-eq-ok c e h = ground arith

  pub ok_or-eq-ok {κ} : {A : Type κ} (o : Option A) (e : E) {a : A} → ok_or o e ≡ ok a → o ≡ some a
  ok_or-eq-ok o e h = ground arith

  pub ok_inj {κ} : {A : Type κ} {a b : A} → ◌≡◌ {A = Result E A} (ok a) (ok b) → a ≡ b
  ok_inj h = cc

  pub Result-cases {κ} :
      {A : Type κ} (m : Result E A) → ((a : A) × (m ≡ ok a)) ⊎ ((e : E) × (m ≡ err e))
  Result-cases (ok a) = inl (a, refl)
  Result-cases (err e) = inr (e, refl)

  pub err_not_ok {κ} : {A : Type κ} {a : A} {e : E} → ◌≡◌ {A = Result E A} (err e) (ok a) → ⊥
  err_not_ok h = cc
