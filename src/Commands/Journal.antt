-- ===== src/Commands/Journal.antt =====
-- packages/control-plane/src/executor.rs: the idempotency check against the events appended.
use swarm_intelligence_engin.Prelude.{
  ◌≡◌, refl, ℕ, Bool, true, false, ◌⊎◌, inl, inr, List, [], ◌∷◌, find?, any, any-append, none, some,
  String, eq_refl, Result, ok, err, ◌>>=◌, through, Bool-cases, arith,
}
use swarm_intelligence_engin.Store.{Json, Event, Store, insert_event, same_event}
use swarm_intelligence_engin.Tasks.{Context}
use swarm_intelligence_engin.Commands.{
  CommandOutcome, CommandResult, has_key, idempotency_check, append_event, outcome_skip, db,
  unless_done, event_for,
}

-- The journal has an event of this kind with this key.
abbrev pub IsDone : String → String → Store → Type 0
IsDone kind key s = any (has_key kind key) s.event_journal ≡ true

pub db-eq-ok : {A : Type 0} (m : Result _ A) {a : A} → db m ≡ ok a → m ≡ ok a
unfolding db
db-eq-ok (ok x) h = cc
db-eq-ok (err e) h = cc

same_event-has_key :
    (e : Event) (journal : List Event)
    → any (same_event e) journal ≡ true
    → any (has_key e.aggregate_kind e.idempotency_key) journal ≡ true
same_event-has_key e [] h = cc
same_event-has_key e (f ∷ journal) h = ground (arith, same_event-has_key e journal)

pub insert_event-IsDone :
    (e : Event) (s : Store) {s' : Store}
    → insert_event e s ≡ ok s'
    → IsDone e.aggregate_kind e.idempotency_key s'
unfolding insert_event
insert_event-IsDone e s {s'} h = ground (
  arith,
  same_event-has_key e s.event_journal,
  any-append (has_key e.aggregate_kind e.idempotency_key) s.event_journal (e ∷ []),
  eq_refl e.aggregate_kind,
  eq_refl e.idempotency_key,
)

pub append_event-IsDone :
    (cx : Context) (drawn : ℕ) (kind id event_kind key : String) (payload : List (String × Json))
    (s : Store) {r : String × Store}
    → append_event cx drawn kind id event_kind key payload s ≡ ok r
    → IsDone kind key r.1
unfolding append_event ◌>>=◌
append_event-IsDone cx drawn kind id event_kind key payload s {r} h = through _ _ h λ s1 e g.
    let done =
      insert_event-IsDone (event_for cx drawn kind id event_kind key payload) s {s' = s1} e in
    ground (arith, done, g)

find?-some :
    {A : Type 0} (p : A → Bool) (xs : List A) → any p xs ≡ true → (x : A) × (find? p xs ≡ some x)
find?-some p [] h = cc
find?-some p (x ∷ xs) h = elim (Bool-cases (p x)) [
  | inl e ↦ (x, rw e refl)
  | inr n ↦ let (y, found) = find?-some p xs (rw n at h) in (y, rw n found)
]

find?-none : {A : Type 0} (p : A → Bool) (xs : List A) → any p xs ≡ false → find? p xs ≡ none
find?-none p [] h = refl
find?-none p (x ∷ xs) h = ground (arith, find?-none p xs)

-- A command whose key is there returns at once, and leaves the tables.
pub unless_done-skips :
    (cx : Context) (kind key message : String) (s : Store) (rest : CommandResult)
    → IsDone kind key s
    → unless_done cx kind key message s rest ≡ ok (outcome_skip cx message, s)
unfolding idempotency_check unless_done outcome_skip
unless_done-skips cx kind key message s rest h =
    let (e, found) = find?-some (has_key kind key) s.event_journal h in rw (unless_done, found) refl

-- Any other command runs.
pub unless_done-runs :
    (cx : Context) (kind key message : String) (s : Store) (rest : CommandResult)
    → any (has_key kind key) s.event_journal ≡ false
    → unless_done cx kind key message s rest ≡ rest
unfolding idempotency_check unless_done
unless_done-runs cx kind key message s rest h =
    rw (unless_done, find?-none (has_key kind key) s.event_journal h) refl

-- The two ways to a success.
pub unless_done-ok :
    (cx : Context) (kind key message : String) (s : Store) (rest : CommandResult)
    {r : CommandOutcome × Store}
    → unless_done cx kind key message s rest ≡ ok r
    → (IsDone kind key s × (r ≡ (outcome_skip cx message, s)))
      ⊎ ((any (has_key kind key) s.event_journal ≡ false) × (rest ≡ ok r))
unfolding idempotency_check unless_done
unless_done-ok cx kind key message s rest {r} h =
    elim (Bool-cases (any (has_key kind key) s.event_journal)) [
      | inl e ↦ let skips = unless_done-skips cx kind key message s rest e in inl (e, cc)
      | inr n ↦
          let absent = find?-none (has_key kind key) s.event_journal n in
          inr (n, rw (unless_done, absent) at h)
    ]

-- After a success the key is there, if the body of the command has put it there.
pub unless_done-IsDone :
    (cx : Context) (kind key message : String) (s : Store) (rest : CommandResult)
    {r : CommandOutcome × Store}
    → unless_done cx kind key message s rest ≡ ok r
    → (rest ≡ ok r → IsDone kind key r.1)
    → IsDone kind key r.1
unless_done-IsDone cx kind key message s rest {r} h k =
    elim (unless_done-ok cx kind key message s rest h) [ inl p ↦ cc | inr q ↦ k q.1 ]
