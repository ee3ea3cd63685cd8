-- ===== src/Tasks/Moves.antt =====
-- How the status of each task moves: along runs of legal transitions.
use swarm_intelligence_engin.Prelude.{
  ℕ, ◌≡◌, subst, inl, inr, Bool-cases, List, Option, none, some, String, str_eq, eq_iff,
}
use swarm_intelligence_engin.Machine.{Run, here, Run-append}
use swarm_intelligence_engin.Store.{Task, changed, same_task}
use swarm_intelligence_engin.Store.Lookup.{
  status_of, with_status, status_of-changed, status_of-changed-other,
}
use swarm_intelligence_engin.Tasks.{is_valid_task_transition}

-- A run of legal transitions leads from the one status to the other; no task comes or goes.
abbrev pub IsLegalMove : Option String → Option String → Type 0
IsLegalMove none none = Unit
IsLegalMove (some from) (some to) = Run is_valid_task_transition from to
IsLegalMove none (some to) = ⊥
IsLegalMove (some from) none = ⊥

abbrev pub Moves : List Task → List Task → Type 0
Moves before after = (id : String) → IsLegalMove (status_of id before) (status_of id after)

legal_stay : (o : Option String) → IsLegalMove o o
legal_stay none = tt
legal_stay (some a) = here

legal_trans : (o p q : Option String) → IsLegalMove o p → IsLegalMove p q → IsLegalMove o q
legal_trans none none none h k = tt
legal_trans none none (some c) h k = absurd k
legal_trans none (some b) q h k = absurd h
legal_trans (some a) none q h k = absurd h
legal_trans (some a) (some b) none h k = absurd k
legal_trans (some a) (some b) (some c) h k = Run-append is_valid_task_transition h k

pub Moves-refl : (ts : List Task) → Moves ts ts
Moves-refl ts id = legal_stay (status_of id ts)

pub Moves-trans : (ts us vs : List Task) → Moves ts us → Moves us vs → Moves ts vs
Moves-trans ts us vs h k id =
    legal_trans (status_of id ts) (status_of id us) (status_of id vs) (h id) (k id)

-- A task that is given a status which its own leads to.
pub Moves-changed :
    (now : ℕ) (v id a : String) (ts : List Task)
    → status_of id ts ≡ some a
    → Run is_valid_task_transition a v
    → Moves ts (changed (same_task id) (with_status now v) ts)
Moves-changed now v id a ts h run other = elim (Bool-cases (str_eq id other)) [
  | inl e ↦
      subst
        (λ x.
          IsLegalMove (status_of x ts)
            (status_of x (changed (same_task id) (with_status now v) ts)))
        ((eq_iff id other).0 e) (rw (h, status_of-changed now v id ts h) run)
  | inr n ↦ rw (status_of-changed-other now v id ts other n) (legal_stay (status_of other ts))
]
