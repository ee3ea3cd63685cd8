-- ===== src/Planning/Cycles.antt =====
-- services/loop-runner/src/planning.rs: the recursive query that `elaborate_plan` counts dependency
-- cycles with. Each of its rows is one edge; a row is extended while its depth is below 100, so there
-- are 99 steps after the first.
use swarm_intelligence_engin.Prelude.{
  ℕ, zero, suc, ◌+◌, ◌≤◌, ◌≡◌, ◌≢◌, ◌↔◌, refl, ap, Bool, true, Bool-cases, inl, inr, List, [], ◌∷◌,
  ◌++◌, length, filter, All, String, str_eq, eq_iff, arith,
}
use swarm_intelligence_engin.Store.{NodeEdge, one_of}

-- The edges from the nodes of the objective.
unfoldable pub first_rows : List String → List NodeEdge → List NodeEdge
first_rows own edges = filter (λ e. one_of own e.from_node_id) edges

-- The join of the rows with the edges that leave their ends.
unfoldable pub next_rows : List NodeEdge → List NodeEdge → List NodeEdge
next_rows edges [] = []
next_rows edges (r ∷ rows) =
    filter (λ e. str_eq e.from_node_id r.to_node_id) edges ++ next_rows edges rows

-- The rows of `steps` more steps, with the duplicates that UNION ALL keeps.
unfoldable pub extended : ℕ → List NodeEdge → List NodeEdge → List NodeEdge
extended zero edges rows = rows
extended (suc steps) edges rows = rows ++ extended steps edges (next_rows edges rows)

unfoldable pub dep_chain : List String → List NodeEdge → List NodeEdge
dep_chain own edges = extended 99 edges (first_rows own edges)

abbrev pub is_loop : NodeEdge → Bool
is_loop e = str_eq e.from_node_id e.to_node_id

-- `SELECT COUNT(*) FROM dep_chain WHERE from_node_id = to_node_id`.
unfoldable pub cycle_check : List String → List NodeEdge → ℕ
cycle_check own edges = length (filter is_loop (dep_chain own edges))

abbrev pub loops : List NodeEdge → ℕ
loops rows = length (filter is_loop rows)

-- No edge leads from a node to itself.
abbrev pub HasNoLoop : List NodeEdge → Type 0
HasNoLoop edges = All (λ e. e.from_node_id ≢ e.to_node_id) edges

loops-append : (xs ys : List NodeEdge) → loops (xs ++ ys) ≡ loops xs + loops ys
loops-append [] ys = omega arith
loops-append (x ∷ xs) ys = ground (arith, loops-append xs ys)

loops-zero_iff : (xs : List NodeEdge) → (loops xs ≡ 0) ↔ HasNoLoop xs
loops-zero_iff [] = (λ h. tt, λ h. refl)
loops-zero_iff (x ∷ xs) = ground (arith, loops-zero_iff xs, eq_iff x.from_node_id x.to_node_id)

filter-HasNoLoop :
    (p : NodeEdge → Bool) (xs : List NodeEdge) → HasNoLoop xs → HasNoLoop (filter p xs)
filter-HasNoLoop p [] h = tt
filter-HasNoLoop p (x ∷ xs) h = elim (Bool-cases (p x)) [
  | inl e ↦ rw e (h.0, filter-HasNoLoop p xs h.1)
  | inr n ↦ rw n (filter-HasNoLoop p xs h.1)
]

append-HasNoLoop : (xs ys : List NodeEdge) → HasNoLoop xs → HasNoLoop ys → HasNoLoop (xs ++ ys)
append-HasNoLoop [] ys h k = k
append-HasNoLoop (x ∷ xs) ys h k = (h.0, append-HasNoLoop xs ys h.1 k)

next_rows-HasNoLoop :
    (edges rows : List NodeEdge) → HasNoLoop edges → HasNoLoop (next_rows edges rows)
unfolding next_rows
next_rows-HasNoLoop edges [] h = tt
next_rows-HasNoLoop edges (r ∷ rows) h =
    append-HasNoLoop (filter (λ e. str_eq e.from_node_id r.to_node_id) edges) (next_rows edges rows)
      (filter-HasNoLoop (λ e. str_eq e.from_node_id r.to_node_id) edges h)
      (next_rows-HasNoLoop edges rows h)

extended-HasNoLoop :
    (steps : ℕ) (edges rows : List NodeEdge)
    → HasNoLoop edges
    → HasNoLoop rows
    → HasNoLoop (extended steps edges rows)
unfolding extended
extended-HasNoLoop zero edges rows h k = k
extended-HasNoLoop (suc steps) edges rows h k =
    append-HasNoLoop rows (extended steps edges (next_rows edges rows)) k
      (extended-HasNoLoop steps edges (next_rows edges rows) h (next_rows-HasNoLoop edges rows h))

loops-extended :
    (steps : ℕ) (edges rows : List NodeEdge) → loops rows ≤ loops (extended steps edges rows)
unfolding extended
loops-extended zero edges rows = omega arith
loops-extended (suc steps) edges rows =
    omega (arith, loops-append rows (extended steps edges (next_rows edges rows)))

first_rows_of_owned :
    (own : List String) (edges : List NodeEdge)
    → All (λ e. one_of own e.from_node_id ≡ true) edges
    → first_rows own edges ≡ edges
unfolding first_rows
first_rows_of_owned own [] h = refl
first_rows_of_owned own (e ∷ edges) h =
    rw (h.0) (ap (λ xs. e ∷ xs) (first_rows_of_owned own edges h.1))

-- If every edge starts at a node of the objective, the cycle check finds nothing exactly when no
-- edge leads from a node to itself: a cycle through two or more nodes is not found.
pub cycle_check-zero_iff :
    (own : List String) (edges : List NodeEdge)
    → All (λ e. one_of own e.from_node_id ≡ true) edges
    → (cycle_check own edges ≡ 0) ↔ HasNoLoop edges
unfolding cycle_check dep_chain
cycle_check-zero_iff own edges h = (
  λ e. (loops-zero_iff edges).0 (
      omega (
        arith,
        rw (first_rows_of_owned own edges h) at (loops-extended 99 edges (first_rows own edges)),
        rw (first_rows_of_owned own edges h) at e,
      )),
  λ k.
      rw (first_rows_of_owned own edges h)
        ((loops-zero_iff (extended 99 edges edges)).1 (extended-HasNoLoop 99 edges edges k k)),
)
