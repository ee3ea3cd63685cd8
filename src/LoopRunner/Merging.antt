-- ===== src/LoopRunner/Merging.antt =====
-- services/loop-runner/src/tick.rs: the verification of an integration waits for all the other nodes
-- of its objective.
use swarm_intelligence_engin.Prelude.{
  any-implies, member-none, All-member, member-filter, member-append, member-split, ◌≡◌, refl, sym,
  ap, subst, ◌∙◌, ℕ, ◌+◌, Bool, true, false, ◌&&◌, inl, inr, Bool-cases, [], ◌∷◌, ◌++◌, any, Any,
  and-eq-true, not-eq-false, String, str_eq, eq_iff, ok, err, if◌then◌else◌, through, ok_inj,
  Result-cases, arith,
}
use swarm_intelligence_engin.Store.{Task, Node, NodeEdge, Store, one_of, same_node}
use swarm_intelligence_engin.Store.Inserts.{insert_node}
use swarm_intelligence_engin.Tasks.{Context}
use swarm_intelligence_engin.Tasks.Unblocking.{is_unfinished, holds_back}
use swarm_intelligence_engin.Commands.{has_key}
use swarm_intelligence_engin.LoopRunner.{then_sweep, in_transaction}
use swarm_intelligence_engin.LoopRunner.Rules.{insert_event-apart}
use swarm_intelligence_engin.LoopRunner.Tasking.{TaskSetup, create_tasks_for_objective}
use swarm_intelligence_engin.LoopRunner.Readiness.{
  IsOpened, none_hold_back, create_tasks_for_objective-IsOpened,
}
use swarm_intelligence_engin.LoopRunner.Verification.{
  is_verify_node, verify_key, verify_node, other_nodes, open_verification, add_verification,
}
use swarm_intelligence_engin.LoopRunner.Links.{links, IsNewEdges, str_eq_refl, add_edges-IsLinked}

-- The first identifier is new to the nodes and the tasks, the following ones to the edges.
pub record IsNew (cx : Context) (drawn : ℕ) (s : Store) : Type 0 where
  pub no_node : any (same_node (cx.new_id drawn)) s.nodes ≡ false
  pub no_task : any (λ t. str_eq t.node_id (cx.new_id drawn)) s.tasks ≡ false
  pub no_edge : IsNewEdges cx (drawn + 1) s.node_edges

added_last :
    {E A : Type 0} (refused present : Bool) (e : E) {a b : A}
    → (if refused then err e else if present then ok a else err e) ≡ ok b
    → a ≡ b
added_last refused present e h = ground arith

insert_node-adds :
    (n : Node) (s : Store) {s' : Store}
    → any (same_node n.node_id) s.nodes ≡ false
    → insert_node n s ≡ ok s'
    → record s { nodes = s.nodes ++ (n ∷ []) } ≡ s'
unfolding insert_node
insert_node-adds n s new h = added_last _ _ _ (rw new at h)

-- What the transaction leaves: the tasks, the other nodes, and an edge from each of them.
open_verification-ok :
    (cx : Context) (cycle_id objective_id : String) (drawn : ℕ) (s s' : Store) {count : ℕ}
    → IsNew cx drawn s
    → open_verification cx cycle_id objective_id drawn s ≡ ok (count, s')
    → (s'.tasks ≡ s.tasks)
      × (s'.nodes ≡ s.nodes ++ (verify_node cx objective_id (cx.new_id drawn) ∷ []))
      × ((m : Node)
          → Any (λ n. n ≡ m) s.nodes
          → m.objective_id ≡ objective_id
          → any (links m.node_id (cx.new_id drawn)) s'.node_edges ≡ true)
unfolding open_verification other_nodes
open_verification-ok cx cycle_id objective_id drawn s s' f h = through _ _ h λ s1 e1 g1.
    through _ _ g1 λ s2 e2 g2. through _ _ g2 λ s3 e3 g3.
      let added = insert_node-adds _ s {s' = s1} f.no_node e1 in
      let (nodes, tasks, grows, linked) =
        add_edges-IsLinked cx (drawn + 1) (cx.new_id drawn) _ s1 s2
          (subst (λ x. IsNewEdges cx (drawn + 1) x.node_edges) added f.no_edge) e2 in
      let nodes3 = insert_event-apart (λ x. x.nodes) _ s2 {s' = s3} (λ rows. refl) e3 in
      let tasks3 = insert_event-apart (λ x. x.tasks) _ s2 {s' = s3} (λ rows. refl) e3 in
      let edges3 = insert_event-apart (λ x. x.node_edges) _ s2 {s' = s3} (λ rows. refl) e3 in
      let last : s3 ≡ s' = ap (λ x. x.1) (ok_inj g3) in
      (
        rw (← last, tasks3, tasks, ← added) refl,
        rw (← last, nodes3, nodes, ← added) refl,
        λ m there mine.
            rw (← last, edges3)
              (All-member (λ n. any (links n.node_id (cx.new_id drawn)) s2.node_edges ≡ true) _ m
                (member-filter _ s1.nodes m (rw (← added) (member-append s.nodes _ m there)) (
                  rw (mine, member-none (same_node (cx.new_id drawn)) s.nodes m there f.no_node)
                    (rw (str_eq_refl objective_id) refl)))
                linked),
      )

links-holds_back :
    (s : Store) (id m : String) (e : NodeEdge)
    → any (is_unfinished m) s.nodes ≡ true
    → links m id e ≡ true
    → holds_back s id e ≡ true
links-holds_back s id m e h k =
    let (from, rest) =
      (and-eq-true (str_eq e.from_node_id m)
          (str_eq e.to_node_id id && str_eq e.edge_kind "depends_on")).0
        k in
    let (to, kind) =
      (and-eq-true (str_eq e.to_node_id id) (str_eq e.edge_kind "depends_on")).0 rest in
    rw ((eq_iff e.from_node_id m).0 from, to, (eq_iff e.edge_kind "depends_on").0 kind, h) refl

-- A node from which an edge leads to one that nothing holds back is finished.
linked-finished :
    (s : Store) (id : String) (m : Node)
    → any (holds_back s id) s.node_edges ≡ false
    → any (links m.node_id id) s.node_edges ≡ true
    → Any (λ n. n ≡ m) s.nodes
    → one_of ("admitted" ∷ "done" ∷ "completed" ∷ []) m.lifecycle ≡ true
linked-finished s id m free link there = elim (Bool-cases (any (is_unfinished m.node_id) s.nodes)) [
  | inl e ↦
      let held =
        any-implies (links m.node_id id) (holds_back s id) s.node_edges
          (λ x. links-holds_back s id m.node_id x e) link in
      cc
  | inr n ↦
      let finished = member-none (is_unfinished m.node_id) s.nodes m there n in
      not-eq-false _ (rw (str_eq_refl m.node_id) at finished)
]

not_both : (status : String) → status ≡ "running" → ¬ (status ≡ "queued")
not_both status e k =
    let same : str_eq "running" "queued" ≡ true = (eq_iff "running" "queued").1 (sym e ∙ k) in cc

module _ (cx : Context) (setup : TaskSetup) (cycle_id objective_id : String) (drawn : ℕ) (s : Store)
    (f : IsNew cx drawn s) where
  -- A task of the new node is not among the old ones.
  no-old-task : (t : Task) → t.node_id ≡ cx.new_id drawn → ¬ Any (λ u. u ≡ t) s.tasks
  no-old-task t named there =
      let none_there =
        member-none (λ u. str_eq u.node_id (cx.new_id drawn)) s.tasks t there f.no_task in
      let same = (eq_iff t.node_id (cx.new_id drawn)).1 named in cc

  -- After the transaction and the creation of tasks.
  after_opening :
      (s1 : Store) (count : ℕ) (d : ℕ)
      → open_verification cx cycle_id objective_id drawn s ≡ ok (count, s1)
      → (t : Task)
      → Any (λ u. u ≡ t) (create_tasks_for_objective cx setup cycle_id objective_id d s1).1.tasks
      → t.node_id ≡ cx.new_id drawn
      → t.status ≡ "running"
      → (m : Node) → Any (λ n. n ≡ m) s.nodes
      → m.objective_id ≡ objective_id
      → one_of ("admitted" ∷ "done" ∷ "completed" ∷ []) m.lifecycle ≡ true
  after_opening s1 count d opened t there named running m among mine =
      let (tasks, nodes, linked) =
        open_verification-ok cx cycle_id objective_id drawn s s1 f opened in
      let (added, longer, created) =
        create_tasks_for_objective-IsOpened cx setup cycle_id objective_id d s1 in
      elim (member-split s1.tasks added t (subst (λ ts. Any (λ u. u ≡ t) ts) longer there)) [
        | inl old ↦ absurd (no-old-task t named (subst (λ ts. Any (λ u. u ≡ t) ts) tasks old))
        | inr new ↦ elim (All-member (IsOpened s1) added t new created) [
          | inl (_, free) ↦
              linked-finished s1 t.node_id m ((none_hold_back s1 t.node_id).1 free)
                (rw named (linked m among mine)) (rw nodes (member-append s.nodes _ m among))
          | inr (queued, _) ↦ absurd (not_both t.status running queued)
        ]
      ]

  -- When the new node and its task have been added, to tables in which the identifiers are new: a task
  -- of the new node that runs is there only if every other node of the objective is admitted, done or
  -- completed.
  pub add_verification-waits :
      (t : Task) (m : Node)
      → Any (λ u. u ≡ t) (add_verification cx setup cycle_id objective_id drawn s).1.tasks
      → t.node_id ≡ cx.new_id drawn
      → t.status ≡ "running"
      → Any (λ n. n ≡ m) s.nodes
      → m.objective_id ≡ objective_id
      → one_of ("admitted" ∷ "done" ∷ "completed" ∷ []) m.lifecycle ≡ true
  unfolding add_verification in_transaction then_sweep
  add_verification-waits t m there named running among mine =
      elim (Bool-cases (any (is_verify_node objective_id) s.nodes)) [
        | inl e ↦ absurd (no-old-task t named (rw (add_verification, e) at there))
        | inr n ↦ elim (Bool-cases (any (has_key "node" (verify_key cycle_id)) s.event_journal)) [
          | inl e ↦ absurd (no-old-task t named (rw (add_verification, n, e) at there))
          | inr k ↦ elim (Result-cases (open_verification cx cycle_id objective_id drawn s)) [
            | inl ((count, s1), e) ↦
                after_opening s1 count _ e t
                  (rw (add_verification, n, k, e, in_transaction, then_sweep) at there) named
                  running m among mine
            | inr (failed, e) ↦ absurd (
                no-old-task t named
                  (rw (add_verification, n, k, e, in_transaction, then_sweep) at there))
          ]
        ]
      ]
