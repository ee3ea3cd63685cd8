-- ===== src/Prelude/Members.antt =====
-- The elements of lists, and what tests and predicates on the list say of them.
use mathlib.Core.Path.{◌≡◌, refl, subst}
use mathlib.Core.Logic.{◌⊎◌, inl, inr}
use mathlib.Core.Bool.{Bool, true, false}
use mathlib.Core.List.{List, [], ◌∷◌, ◌++◌}
use native.Mathlib.Omega.{arith}
use swarm_intelligence_engin.Prelude.Tests.{Bool-cases}
use swarm_intelligence_engin.Prelude.Lists.{any, filter, All, Any}

module _ {A : Type 0} where
  member-any :
      (p : A → Bool) (xs : List A) (m : A) → Any (λ x. x ≡ m) xs → p m ≡ true → any p xs ≡ true
  member-any p [] m h e = absurd h
  member-any p (x ∷ xs) m (inl q) e = rw (q, e) refl
  member-any p (x ∷ xs) m (inr h) e = ground (arith, member-any p xs m h e)

  pub member-none :
      (p : A → Bool) (xs : List A) (m : A) → Any (λ x. x ≡ m) xs → any p xs ≡ false → p m ≡ false
  member-none p xs m h n = elim (Bool-cases (p m)) [
    | inl e ↦ let there = member-any p xs m h e in cc
    | inr e ↦ e
  ]

  pub All-member : (P : A → Type 0) (xs : List A) (m : A) → Any (λ x. x ≡ m) xs → All P xs → P m
  All-member P [] m h a = absurd h
  All-member P (x ∷ xs) m (inl q) a = subst P q a.0
  All-member P (x ∷ xs) m (inr h) a = All-member P xs m h a.1

  pub member-filter :
      (p : A → Bool) (xs : List A) (m : A)
      → Any (λ x. x ≡ m) xs
      → p m ≡ true
      → Any (λ x. x ≡ m) (filter p xs)
  member-filter p [] m h e = absurd h
  member-filter p (x ∷ xs) m (inl q) e = rw (q, e) (inl refl)
  member-filter p (x ∷ xs) m (inr h) e = elim (Bool-cases (p x)) [
    | inl y ↦ rw y (inr (member-filter p xs m h e))
    | inr n ↦ rw n (member-filter p xs m h e)
  ]

  pub member-append : (xs ys : List A) (m : A) → Any (λ x. x ≡ m) xs → Any (λ x. x ≡ m) (xs ++ ys)
  member-append [] ys m h = absurd h
  member-append (x ∷ xs) ys m (inl q) = inl q
  member-append (x ∷ xs) ys m (inr h) = inr (member-append xs ys m h)

  pub member-split :
      (xs ys : List A) (m : A)
      → Any (λ x. x ≡ m) (xs ++ ys)
      → Any (λ x. x ≡ m) xs ⊎ Any (λ x. x ≡ m) ys
  member-split [] ys m h = inr h
  member-split (x ∷ xs) ys m (inl q) = inl (inl q)
  member-split (x ∷ xs) ys m (inr h) = elim (member-split xs ys m h) [
    | inl l ↦ inl (inr l)
    | inr r ↦ inr r
  ]

pub any-implies :
    {A : Type 0} (p q : A → Bool) (xs : List A)
    → ((x : A) → p x ≡ true → q x ≡ true)
    → any p xs ≡ true
    → any q xs ≡ true
any-implies p q [] k h = h
any-implies p q (x ∷ xs) k h = ground (arith, k x, any-implies p q xs k)
