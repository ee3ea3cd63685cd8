-- ===== src/Commands/Board.antt =====
-- What the commands of packages/control-plane/src/executor.rs promise about tasks: a board that
-- gives the status of each task, and the steps by which it changes.
use mathlib.Core.Path.{fun_ext}
use swarm_intelligence_engin.Prelude.{
  ◌≡◌, refl, sym, subst, Bool, true, false, inl, inr, Bool-cases, if◌then◌else◌, List, [], ◌∷◌,
  ◌++◌, any, Option, none, some, String, str_eq, eq_iff, ℕ, arith,
}
use swarm_intelligence_engin.Store.{Task, Node, Store, changed, same_task, same_node}
use swarm_intelligence_engin.Store.Lookup.{status_of, with_status, status_of-changed-all}
use swarm_intelligence_engin.Store.Checks.{with_lifecycle}
use swarm_intelligence_engin.Commands.Reports.{is_settled}

abbrev pub Board : Type 0
Board = String → Option String

abbrev pub assign : String → String → Board → Board
assign id status b other = if str_eq id other then some status else b other

-- The steps of the board.
pub data Step (b : Board) : Board → Type 0 where
  stays : Step b b
  creates : (id status : String) → b id ≡ none → Step b (assign id status b)
  completes :
      (id from : String)
      → b id ≡ some from
      → is_settled from ≡ false
      → Step b (assign id "succeeded" b)
  retries : (id : String) → b id ≡ some "failed" → Step b (assign id "queued" b)

-- Sequences of steps.
pub data Steps : Board → Board → Type 0 where
  here : {b : Board} → Steps b b
  next : {b c d : Board} → Step b c → Steps c d → Steps b d

-- The board that the tables show.
abbrev pub board : Store → Board
board s id = status_of id s.tasks

-- A task that is there takes another status.
pub board-changed :
    (now : ℕ) (v id : String) (s s' : Store) {from : String}
    → status_of id s.tasks ≡ some from
    → s'.tasks ≡ changed (same_task id) (with_status now v) s.tasks
    → assign id v (board s) ≡ board s'
board-changed now v id s s' {from} found e = fun_ext λ other.
    let after = status_of-changed-all now v id s.tasks other in
    elim (Bool-cases (str_eq id other)) [
      | inl q ↦
          let there = subst (λ i. status_of i s.tasks ≡ some from) ((eq_iff id other).0 q) found in
          rw (e, q) (sym (rw (q, there) at after))
      | inr n ↦ rw (e, n) (sym (rw n at after))
    ]

status_of-snoc :
    (t : Task) (ts : List Task) (other : String)
    → any (same_task t.task_id) ts ≡ false
    → status_of other (ts ++ (t ∷ []))
      ≡ (if str_eq t.task_id other then some t.status else status_of other ts)
status_of-snoc t [] other h = ground arith
status_of-snoc t (x ∷ ts) other h = ground (
  arith,
  status_of-snoc t ts other,
  eq_iff x.task_id other,
  eq_iff t.task_id other,
  eq_iff x.task_id t.task_id,
)

pub board-created :
    (t : Task) (s s' : Store)
    → any (same_task t.task_id) s.tasks ≡ false
    → s'.tasks ≡ s.tasks ++ (t ∷ [])
    → assign t.task_id t.status (board s) ≡ board s'
board-created t s s' h e = fun_ext λ other. sym (rw e (status_of-snoc t s.tasks other h))

-- The status of an absent task.
pub status_of-absent :
    (id : String) (ts : List Task) → any (same_task id) ts ≡ false → status_of id ts ≡ none
status_of-absent id [] h = refl
status_of-absent id (t ∷ ts) h = ground (arith, status_of-absent id ts)

pub any-node-changed :
    (now : ℕ) (v : String) (p : Node → Bool) (id : String) (ns : List Node)
    → any (same_node id) (changed p (with_lifecycle now v) ns) ≡ any (same_node id) ns
any-node-changed now v p id [] = refl
any-node-changed now v p id (n ∷ ns) = ground (arith, any-node-changed now v p id ns)

-- A task with a status that no step leaves.
abbrev pub IsFinal : String → Type 0
IsFinal v = (is_settled v ≡ true) × (str_eq v "failed" ≡ false)

Step-final : (b c : Board) (id v : String) → IsFinal v → b id ≡ some v → Step b c → c id ≡ some v
Step-final b c id v f h stays = h
Step-final b c id v f h (creates i status none_there) = elim (Bool-cases (str_eq i id)) [
  | inl q ↦ let same = (eq_iff i id).0 q in cc
  | inr n ↦ rw n h
]
Step-final b c id v f h (completes i from there unsettled) = elim (Bool-cases (str_eq i id)) [
  | inl q ↦ let same = (eq_iff i id).0 q in cc
  | inr n ↦ rw n h
]
Step-final b c id v f h (retries i there) = elim (Bool-cases (str_eq i id)) [
  | inl q ↦ let same = (eq_iff i id).0 q in cc
  | inr n ↦ rw n h
]

pub Steps-final :
    (b c : Board) (id v : String) → IsFinal v → b id ≡ some v → Steps b c → c id ≡ some v
Steps-final b c id v f h here = h
Steps-final b c id v f h (next {c = d} step rest) =
    Steps-final d c id v f (Step-final b d id v f h step) rest
