-- ===== src/LoopRunner/Links.antt =====
-- services/loop-runner/src/tick.rs: the edges that make the verification of an integration depend on
-- the other nodes of its objective.
use swarm_intelligence_engin.Prelude.{
  ◌≡◌, refl, sym, ap, subst, ◌∙◌, ℕ, ◌+◌, ◌≤◌, ◌<◌, Bool, true, false, ◌&&◌, List, [], ◌∷◌, ◌++◌,
  any, any-append, All, String, str_eq, eq_iff, ok, if-eq-ok, through, ok_inj, arith,
}
use swarm_intelligence_engin.Store.{Node, NodeEdge, Store}
use swarm_intelligence_engin.Store.Inserts.{same_edge, insert_edge}
use swarm_intelligence_engin.Tasks.{Context}
use swarm_intelligence_engin.LoopRunner.Verification.{add_edges}

abbrev pub links : String → String → NodeEdge → Bool
links m id e =
    str_eq e.from_node_id m && (str_eq e.to_node_id id && str_eq e.edge_kind "depends_on")

-- The identifiers from this one on are new to the edges, and all different.
pub record IsNewEdges (cx : Context) (from : ℕ) (es : List NodeEdge) : Type 0 where
  pub unused : (k : ℕ) → from ≤ k → any (same_edge (cx.new_id k)) es ≡ false
  pub distinct : (i j : ℕ) → i < j → str_eq (cx.new_id i) (cx.new_id j) ≡ false

insert_edge-ok :
    (e : NodeEdge) (s : Store) {s' : Store}
    → any (same_edge e.edge_id) s.node_edges ≡ false
    → insert_edge e s ≡ ok s'
    → record s { node_edges = s.node_edges ++ (e ∷ []) } ≡ s'
unfolding insert_edge
insert_edge-ok e s n h = (if-eq-ok _ _ (rw n at h)).1

IsNewEdges-snoc :
    (cx : Context) (from : ℕ) (e : NodeEdge) (es : List NodeEdge)
    → e.edge_id ≡ cx.new_id from
    → IsNewEdges cx from es
    → IsNewEdges cx (from + 1) (es ++ (e ∷ []))
IsNewEdges-snoc cx from e es named f = record {
  unused = λ k le.
      any-append (same_edge (cx.new_id k)) es (e ∷ [])
      ∙ rw (f.unused k (omega arith), named, f.distinct from k (omega arith)) refl;
  distinct = f.distinct;
}

any-snoc-last :
    {A : Type 0} (p : A → Bool) (xs : List A) (x : A) → p x ≡ true → any p (xs ++ (x ∷ [])) ≡ true
any-snoc-last p [] x h = rw h refl
any-snoc-last p (y ∷ ys) x h = ground (arith, any-snoc-last p ys x h)

-- What the loop over the other nodes leaves.
abbrev IsLinked : String → List Node → Store → Store → Type 0
IsLinked id ms s s' =
    (s'.nodes ≡ s.nodes)
    × (s'.tasks ≡ s.tasks)
    × ((p : NodeEdge → Bool) → any p s.node_edges ≡ true → any p s'.node_edges ≡ true)
    × All (λ m. any (links m.node_id id) s'.node_edges ≡ true) ms

pub str_eq_refl : (t : String) → str_eq t t ≡ true
str_eq_refl t = (eq_iff t t).1 refl

pub add_edges-IsLinked :
    (cx : Context) (drawn : ℕ) (id : String) (ms : List Node) (s s' : Store)
    → IsNewEdges cx drawn s.node_edges
    → add_edges cx drawn id ms s ≡ ok s'
    → IsLinked id ms s s'
unfolding add_edges
add_edges-IsLinked cx drawn id [] s s' f h = rw (← ok_inj h) (refl, refl, λ p k. k, tt)
add_edges-IsLinked cx drawn id (m ∷ ms) s s' f h = through _ _ h λ s1 e1 g1.
    let edge : NodeEdge = record {
      edge_id = cx.new_id drawn;
      from_node_id = m.node_id;
      to_node_id = id;
      edge_kind = "depends_on";
    } in
    let added = insert_edge-ok edge s {s' = s1} (f.unused drawn (omega arith)) e1 in
    let fresh : IsNewEdges cx (drawn + 1) s1.node_edges =
      subst (λ x. IsNewEdges cx (drawn + 1) x.node_edges) added
        (IsNewEdges-snoc cx drawn edge s.node_edges refl f) in
    let (nodes, tasks, grows, rest) = add_edges-IsLinked cx (drawn + 1) id ms s1 s' fresh g1 in
    let edges : s.node_edges ++ (edge ∷ []) ≡ s1.node_edges = ap (λ x. x.node_edges) added in
    (
      nodes ∙ ap (λ x. x.nodes) (sym added),
      tasks ∙ ap (λ x. x.tasks) (sym added),
      λ p k. grows p (rw (← edges) (any-append p s.node_edges (edge ∷ []) ∙ rw k refl)),
      (
        grows (links m.node_id id) (
            rw (← edges) (
              any-snoc-last (links m.node_id id) s.node_edges edge
                (rw (str_eq_refl m.node_id, str_eq_refl id) refl))),
        rest,
      ),
    )
