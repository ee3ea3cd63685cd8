-- ===== src/Adapters/Chain.antt =====
-- The order in which `fallback_chain` lists the adapters.
use swarm_intelligence_engin.Prelude.{
  ◌≡◌, ◌∙◌, refl, inl, inr, true, false, Bool-cases, Option-cases, if◌then◌else◌, List, [], ◌∷◌,
  ◌++◌, map, any, first?, All, Any, Option, none, some, String, str_eq, eq_iff, eq_refl, any-append,
  or_false, IsUnique, arith,
}
use swarm_intelligence_engin.Adapters.{
  Adapter, AdapterRegistry, named, get, get_preferred, extend_chain, fallback_chain,
}
use swarm_intelligence_engin.Adapters.Selection.{found, none_not_some}

abbrev pub names : List Adapter → List String
names chain = map (λ a. a.name) chain

All-snoc :
    (P : Adapter → Type 0) (xs : List Adapter) (a : Adapter)
    → All P xs
    → P a
    → All P (xs ++ (a ∷ []))
All-snoc P [] a h p = (p, tt)
All-snoc P (x ∷ xs) a h p = (h.0, All-snoc P xs a h.1 p)

names_differ : (s t : String) → str_eq s t ≡ false → str_eq t s ≡ false
names_differ s t h = ground (arith, eq_iff s t, eq_iff t s)

apart-snoc :
    (name : String) (xs : List Adapter) (a : Adapter)
    → All (λ j. str_eq j name ≡ false) (names xs)
    → str_eq a.name name ≡ false
    → All (λ j. str_eq j name ≡ false) (names (xs ++ (a ∷ [])))
apart-snoc name [] a h n = (n, tt)
apart-snoc name (x ∷ xs) a h n = (h.0, apart-snoc name xs a h.1 n)

IsUnique-snoc :
    (xs : List Adapter) (a : Adapter)
    → IsUnique (names xs)
    → any (named a.name) xs ≡ false
    → IsUnique (names (xs ++ (a ∷ [])))
IsUnique-snoc [] a u n = (tt, tt)
IsUnique-snoc (x ∷ xs) a u n =
    let (here_not, rest_not) = or_false (named a.name x) (any (named a.name) xs) n in
    (
      apart-snoc x.name xs a u.0 (names_differ x.name a.name here_not),
      IsUnique-snoc xs a u.1 rest_not,
    )

any-snoc-old :
    (name : String) (xs : List Adapter) (a : Adapter)
    → any (named name) xs ≡ true
    → any (named name) (xs ++ (a ∷ [])) ≡ true
any-snoc-old name xs a h = rw (any-append (named name) xs (a ∷ []), h) refl

any-snoc-new : (xs : List Adapter) (a : Adapter) → any (named a.name) (xs ++ (a ∷ [])) ≡ true
any-snoc-new xs a = rw (any-append (named a.name) xs (a ∷ []), eq_refl a.name) (ground arith)

-- The next chain of the loop.
abbrev pushed : List Adapter → Adapter → List Adapter
pushed chain a = if any (named a.name) chain then chain else chain ++ (a ∷ [])

extend_chain-IsUnique :
    (chain xs : List Adapter) → IsUnique (names chain) → IsUnique (names (extend_chain chain xs))
unfolding extend_chain
extend_chain-IsUnique chain [] u = u
extend_chain-IsUnique chain (a ∷ xs) u =
    extend_chain-IsUnique (pushed chain a) xs (elim (Bool-cases (any (named a.name) chain)) [
      | inl e ↦ rw e u
      | inr n ↦ rw n (IsUnique-snoc chain a u n)
    ])

extend_chain-keeps :
    (name : String) (chain xs : List Adapter)
    → any (named name) chain ≡ true
    → any (named name) (extend_chain chain xs) ≡ true
unfolding extend_chain
extend_chain-keeps name chain [] h = h
extend_chain-keeps name chain (a ∷ xs) h =
    extend_chain-keeps name (pushed chain a) xs (elim (Bool-cases (any (named a.name) chain)) [
      | inl e ↦ rw e h
      | inr n ↦ rw n (any-snoc-old name chain a h)
    ])

extend_chain-covers :
    (chain xs : List Adapter) → All (λ a. any (named a.name) (extend_chain chain xs) ≡ true) xs
unfolding extend_chain
extend_chain-covers chain [] = tt
extend_chain-covers chain (a ∷ xs) = (
  extend_chain-keeps a.name (pushed chain a) xs (elim (Bool-cases (any (named a.name) chain)) [
    | inl e ↦ rw (e, e) refl
    | inr n ↦ rw n (any-snoc-new chain a)
  ]),
  extend_chain-covers (pushed chain a) xs,
)

extend_chain-All :
    (P : Adapter → Type 0) (chain xs : List Adapter)
    → All P chain
    → All P xs
    → All P (extend_chain chain xs)
unfolding extend_chain
extend_chain-All P chain [] c h = c
extend_chain-All P chain (a ∷ xs) c h =
    extend_chain-All P (pushed chain a) xs
      (elim (Bool-cases (any (named a.name) chain)) [
        | inl e ↦ rw e c
        | inr n ↦ rw n (All-snoc P chain a c h.0)
      ])
      h.1

extend_chain-first :
    (p : Adapter) (chain xs : List Adapter) → first? (extend_chain (p ∷ chain) xs) ≡ some p
unfolding extend_chain
extend_chain-first p chain [] = refl
extend_chain-first p chain (a ∷ xs) = elim (Bool-cases (any (named a.name) (p ∷ chain))) [
  | inl e ↦ rw e (extend_chain-first p chain xs)
  | inr n ↦ rw n (extend_chain-first p (chain ++ (a ∷ [])) xs)
]

All-weaken :
    (xs ys : List Adapter) (x : Adapter)
    → All (λ b. Any (λ a. a ≡ b) ys) xs
    → All (λ b. Any (λ a. a ≡ b) (x ∷ ys)) xs
All-weaken [] ys x h = tt
All-weaken (z ∷ xs) ys x h = (inr h.0, All-weaken xs ys x h.1)

All-self : (xs : List Adapter) → All (λ b. Any (λ a. a ≡ b) xs) xs
All-self [] = tt
All-self (x ∷ xs) = (inl refl, All-weaken xs xs x (All-self xs))

-- The order in which adapters are tried.
pub record IsChain (r : AdapterRegistry) (preferred : Option String) (chain : List Adapter)
    : Type 0 where
  pub distinct : IsUnique (names chain)
  pub complete : All (λ a. any (named a.name) chain ≡ true) r.adapters
  pub registered : All (λ b. Any (λ a. a ≡ b) r.adapters) chain
  pub preferred_first : (a : Adapter) → get_preferred r preferred ≡ some a → first? chain ≡ some a

preferred-registered :
    (r : AdapterRegistry) (preferred : Option String) (a : Adapter)
    → get_preferred r preferred ≡ some a
    → Any (λ b. b ≡ a) r.adapters
unfolding get
preferred-registered r none a h = cc
preferred-registered r (some name) a h = (found (named name) r.adapters a h).0

-- The fallback chain names no adapter twice, has the name of every registered adapter, holds
-- registered adapters only, and begins with the preferred one if that is registered.
pub fallback_chain-IsChain :
    (r : AdapterRegistry) (preferred : Option String)
    → IsChain r preferred (fallback_chain r preferred)
unfolding fallback_chain
fallback_chain-IsChain r preferred = elim (Option-cases (get_preferred r preferred)) [
  | inl e ↦ rw e (record {
    distinct = extend_chain-IsUnique [] r.adapters tt;
    complete = extend_chain-covers [] r.adapters;
    registered =
        extend_chain-All (λ b. Any (λ a. a ≡ b) r.adapters) [] r.adapters tt (All-self r.adapters);
    preferred_first = λ a h. absurd (none_not_some (rw e at h));
  })
  | inr (p, e) ↦ rw e (record {
    distinct = extend_chain-IsUnique (p ∷ []) r.adapters (tt, tt);
    complete = extend_chain-covers (p ∷ []) r.adapters;
    registered =
        extend_chain-All (λ b. Any (λ a. a ≡ b) r.adapters) (p ∷ []) r.adapters
          (preferred-registered r preferred p e, tt) (All-self r.adapters);
    preferred_first = λ a h. extend_chain-first p [] r.adapters ∙ (rw e at h);
  })
]
