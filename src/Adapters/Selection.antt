-- ===== src/Adapters/Selection.antt =====
-- What `select_with_fallback` chooses.
use swarm_intelligence_engin.Prelude.{
  ◌≡◌, some_inj, ◌⊎◌, refl, subst, inl, inr, Bool, true, false, Bool-cases, Option-cases, List, [],
  ◌∷◌, find?, first?, All, Any, Option, none, some, String, eq_iff, arith,
}
use swarm_intelligence_engin.Adapters.{
  Adapter, AdapterRegistry, is_unhealthy, record_of, named, get, or_first, is_healthy,
  preferred_healthy, select_with_fallback,
}

-- The choice is a registered adapter, and if it is one whose record is unhealthy, then so is every
-- registered adapter.
abbrev pub IsChoice : AdapterRegistry → Adapter → Type 0
IsChoice r a =
    Any (λ b. b ≡ a) r.adapters
    × ((is_healthy r a ≡ true) ⊎ All (λ b. is_healthy r b ≡ false) r.adapters)

pub found :
    (p : Adapter → Bool) (xs : List Adapter) (a : Adapter)
    → find? p xs ≡ some a
    → Any (λ b. b ≡ a) xs × (p a ≡ true)
found p [] a h = cc
found p (x ∷ xs) a h = elim (Bool-cases (p x)) [
  | inl e ↦ let same : some x ≡ some a = rw e at h in (inl cc, cc)
  | inr n ↦ let (has, ok) = found p xs a (rw n at h) in (inr has, ok)
]

not_found : (p : Adapter → Bool) (xs : List Adapter) → find? p xs ≡ none → All (λ b. p b ≡ false) xs
not_found p [] h = tt
not_found p (x ∷ xs) h = ground (arith, not_found p xs)

first-Any : (xs : List Adapter) (a : Adapter) → first? xs ≡ some a → Any (λ b. b ≡ a) xs
first-Any [] a h = cc
first-Any (x ∷ xs) a h = inl cc

fallback-IsChoice :
    (r : AdapterRegistry) (a : Adapter)
    → or_first (find? (is_healthy r) r.adapters) r.adapters ≡ some a
    → IsChoice r a
fallback-IsChoice r a h = elim (Option-cases (find? (is_healthy r) r.adapters)) [
  | inl e ↦ (first-Any r.adapters a (rw e at h), inr (not_found (is_healthy r) r.adapters e))
  | inr (b, e) ↦
      let (has, healthy) = found (is_healthy r) r.adapters b e in
      let same : some b ≡ some a = rw e at h in
      subst (IsChoice r) (some_inj same) (has, inl healthy)
]

pub none_not_some : {A : Type 0} {a : A} → ◌≡◌ {A = Option A} none (some a) → ⊥
none_not_some h = cc

preferred-IsChoice :
    (r : AdapterRegistry) (preferred : Option String) (a : Adapter)
    → preferred_healthy r preferred ≡ some a
    → IsChoice r a
unfolding is_healthy get
preferred-IsChoice r none a h = cc
preferred-IsChoice r (some name) a h = elim (Option-cases (find? (record_of name) r.capabilities)) [
  | inl e ↦ absurd (none_not_some (rw e at h))
  | inr (c, e) ↦
      let kept = rw e at h in
      elim (Bool-cases (is_unhealthy c.health)) [
        | inl u ↦ absurd (none_not_some (rw u at kept))
        | inr u ↦
            let (has, by_name) = found (named name) r.adapters a (rw u at kept) in
            (has, inl (rw ((eq_iff a.name name).0 by_name, e, u) refl))
      ]
]

nothing_first : (xs : List Adapter) (o : Option Adapter) → or_first o xs ≡ none → xs ≡ []
nothing_first [] o h = refl
nothing_first (x ∷ xs) none h = cc
nothing_first (x ∷ xs) (some a) h = cc

-- An adapter is chosen unless none is registered. It is a registered one, and its record is not
-- unhealthy unless the records of all registered adapters are: an adapter without a record counts as
-- healthy.
pub select_with_fallback-IsChoice :
    (r : AdapterRegistry) (preferred : Option String)
    → ((r.adapters ≡ []) × (select_with_fallback r preferred ≡ none))
      ⊎ ((a : Adapter) × (select_with_fallback r preferred ≡ some a) × IsChoice r a)
unfolding select_with_fallback
select_with_fallback-IsChoice r preferred = elim (Option-cases (preferred_healthy r preferred)) [
  | inl e ↦ elim (Option-cases (or_first (find? (is_healthy r) r.adapters) r.adapters)) [
    | inl n ↦ inl (nothing_first r.adapters (find? (is_healthy r) r.adapters) n, rw (e, n) refl)
    | inr (a, h) ↦ inr (a, rw (e, h) refl, fallback-IsChoice r a h)
  ]
  | inr (a, h) ↦ inr (a, rw h refl, preferred-IsChoice r preferred a h)
]
