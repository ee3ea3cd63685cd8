-- ===== src/LoopRunner/Rules.antt =====
-- services/loop-runner/src/tick.rs: what holds of a sweep because it holds of each row, and what the
-- statements of the transactions leave.
use swarm_intelligence_engin.Prelude.{
  ◌≡◌, refl, ap, ◌∙◌, ℕ, ◌+◌, Bool, true, false, inl, inr, ◌⊎◌, Bool-cases, List, [], ◌∷◌, ◌++◌,
  any, any-append, String, Result, ok, err, Result-cases, ok_inj, if◌then◌else◌,
}
use swarm_intelligence_engin.Store.{Event, Store, ApiError, insert_event}
use swarm_intelligence_engin.Store.Lookup.{insert_event-ok}
use swarm_intelligence_engin.Commands.{has_key}
use swarm_intelligence_engin.LoopRunner.{
  Swept, Transacted, sweep, in_transaction, auto_commit, unless_recorded,
}

-- What every row keeps, the sweep keeps.
pub sweep-keeps :
    {Row : Type 0} (P : Store → Type 0) (width : ℕ) (run : ℕ → Row → Store → Swept)
    → ((drawn : ℕ) (r : Row) (s : Store) → P s → P (run drawn r s).1)
    → (rs : List Row) (drawn count : ℕ) (s : Store) → P s
    → P (sweep width run rs drawn count s).1
unfolding sweep
sweep-keeps P width run keep [] drawn count s h = h
sweep-keeps P width run keep (r ∷ rs) drawn count s h =
    let kept = keep drawn r s h in
    elim (Result-cases (run drawn r s).0) [
      | inl (n, e) ↦
          rw (sweep, e)
            (sweep-keeps P width run keep rs (drawn + width) (count + n) (run drawn r s).1 kept)
      | inr (e, n) ↦ rw (sweep, n) kept
    ]

-- What the transaction keeps when it commits, holds after it.
pub in_transaction-keeps :
    (P : Store → Type 0) (s : Store) (m : Transacted)
    → P s
    → ((n : ℕ) (s' : Store) → m ≡ ok (n, s') → P s')
    → P (in_transaction s m).1
unfolding in_transaction
in_transaction-keeps P s (ok (n, s')) h k = k n s' refl
in_transaction-keeps P s (err e) h k = h

pub auto_commit-keeps :
    (P : Store → Type 0) (s : Store) (m : Result ApiError Store) (rest : Store → Swept)
    → P s
    → ((s' : Store) → m ≡ ok s' → P (rest s').1)
    → P (auto_commit s m rest).1
unfolding auto_commit
auto_commit-keeps P s (ok s') rest h k = k s' refl
auto_commit-keeps P s (err e) rest h k = h

-- Either recorded before, and rolled back; or what follows has run.
pub unless_recorded-ok :
    (kind key : String) (s : Store) (rest : Transacted) {r : ℕ × Store}
    → unless_recorded kind key s rest ≡ ok r
    → ((any (has_key kind key) s.event_journal ≡ true) × (s ≡ r.1))
      ⊎ ((any (has_key kind key) s.event_journal ≡ false) × (rest ≡ ok r))
unfolding unless_recorded
unless_recorded-ok kind key s rest {r} h =
    elim (Bool-cases (any (has_key kind key) s.event_journal)) [
      | inl e ↦ inl (e, ap (λ x. x.1) (ok_inj (rw e at h)))
      | inr n ↦ inr (n, rw n at h)
    ]

-- The journal only grows.
pub insert_event-grows :
    (e : Event) (s : Store) (p : Event → Bool) {s' : Store}
    → insert_event e s ≡ ok s'
    → any p s.event_journal ≡ true
    → any p s'.event_journal ≡ true
insert_event-grows e s p {s'} h k = elim (insert_event-ok 0 s e h) [
  | inl same ↦ rw (← same) k
  | inr longer ↦ rw (← longer) (any-append p s.event_journal (e ∷ []) ∙ rw k refl)
]

-- What does not depend on the journal stays.
pub insert_event-apart :
    {X : Type 0} (f : Store → X) (e : Event) (s : Store) {s' : Store}
    → ((rows : List Event) → f (record s { event_journal = rows }) ≡ f s)
    → insert_event e s ≡ ok s'
    → f s' ≡ f s
insert_event-apart f e s {s'} h k = elim (insert_event-ok 0 s e k) [
  | inl same ↦ rw (← same) refl
  | inr longer ↦ rw (← longer) (h (s.event_journal ++ (e ∷ [])))
]

-- The transaction that is rolled back when its key is recorded, or when its UPDATE finds no row.
pub recorded-keeps :
    (P : Store → Type 0) (kind key : String) (found : Bool) (s : Store) (body : Transacted)
    → P s
    → (any (has_key kind key) s.event_journal ≡ false
        → (n : ℕ) (s' : Store) → body ≡ ok (n, s')
        → P s')
    → P (in_transaction s (unless_recorded kind key s (if found then body else ok (0, s)))).1
unfolding unless_recorded in_transaction
recorded-keeps P kind key found s body h k =
    elim (Bool-cases (any (has_key kind key) s.event_journal)) [
      | inl e ↦ rw (unless_recorded, e, in_transaction) h
      | inr n ↦
          rw (unless_recorded, n)
            (elim (Bool-cases found) [
              | inl f ↦ rw f (in_transaction-keeps P s body h (k n))
              | inr f ↦ rw (f, in_transaction) h
            ])
    ]

-- The transaction that is rolled back when its key is recorded.
pub unrecorded-keeps :
    (P : Store → Type 0) (kind key : String) (s : Store) (body : Transacted)
    → P s
    → ((n : ℕ) (s' : Store) → body ≡ ok (n, s') → P s')
    → P (in_transaction s (unless_recorded kind key s body)).1
unfolding unless_recorded in_transaction
unrecorded-keeps P kind key s body h k =
    elim (Bool-cases (any (has_key kind key) s.event_journal)) [
      | inl e ↦ rw (unless_recorded, e, in_transaction) h
      | inr n ↦ rw (unless_recorded, n) (in_transaction-keeps P s body h k)
    ]
