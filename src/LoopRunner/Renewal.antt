-- ===== src/LoopRunner/Renewal.antt =====
-- services/loop-runner/src/tick.rs: the unfinished cycles of a loop under the sweep that creates them.
use swarm_intelligence_engin.Prelude.{
  ◌≡◌, refl, ap, ◌∙◌, subst, ℕ, ◌+◌, ◌≤◌, Bool, false, inl, inr, Bool-cases, not, List, [], ◌∷◌,
  ◌++◌, any, filter, All, IsUnique, String, str_eq, eq_iff, ok, through, ok_inj, if-eq-ok,
  Result-cases, arith,
}
use swarm_intelligence_engin.Store.{Store, Loop, Cycle, changed}
use swarm_intelligence_engin.Store.Inserts.{same_loop, insert_cycle}
use swarm_intelligence_engin.Tasks.{Context}
use swarm_intelligence_engin.LoopRunner.{sweep}
use swarm_intelligence_engin.LoopRunner.Creation.{
  is_active_cycle_of, cycle_key, open_cycle, create_cycle_for, loops_without_active_cycle,
  create_cycles_for_active_loops,
}
use swarm_intelligence_engin.LoopRunner.Single.{loop_ids, active_cycles, IsSingle, differs}
use swarm_intelligence_engin.LoopRunner.Rules.{unrecorded-keeps, insert_event-apart}

-- The loop has no unfinished cycle.
abbrev IsIdle : List Cycle → Loop → Type 0
IsIdle cs l = active_cycles l.loop_id cs ≡ 0

-- What the transaction for a loop leaves: the identifiers of the loops, and at most one more cycle,
-- which is the loop's.
record IsRenewed (l : Loop) (s s' : Store) : Type 0 where
  ids : loop_ids s'.loops ≡ loop_ids s.loops
  own : active_cycles l.loop_id s'.cycles ≤ active_cycles l.loop_id s.cycles + 1
  others :
      (loop_id : String)
      → str_eq l.loop_id loop_id ≡ false
      → active_cycles loop_id s'.cycles ≡ active_cycles loop_id s.cycles

IsRenewed-refl : (l : Loop) (s : Store) → IsRenewed l s s
IsRenewed-refl l s = record { ids = refl; own = omega arith; others = λ i n. refl }

loop_ids-changed :
    (id : String) (f : Loop → Loop) (ls : List Loop)
    → ((l : Loop) → (f l).loop_id ≡ l.loop_id)
    → loop_ids (changed (same_loop id) f ls) ≡ loop_ids ls
loop_ids-changed id f [] h = refl
loop_ids-changed id f (l ∷ ls) h = ground (arith, loop_ids-changed id f ls h, h l)

active_cycles-snoc :
    (loop_id : String) (c : Cycle) (cs : List Cycle)
    → active_cycles loop_id (cs ++ (c ∷ [])) ≤ active_cycles loop_id cs + 1
active_cycles-snoc loop_id c [] = ground arith
active_cycles-snoc loop_id c (x ∷ cs) = ground (arith, active_cycles-snoc loop_id c cs)

active_cycles-snoc-other :
    (loop_id : String) (c : Cycle) (cs : List Cycle)
    → str_eq c.loop_id loop_id ≡ false
    → active_cycles loop_id (cs ++ (c ∷ [])) ≡ active_cycles loop_id cs
active_cycles-snoc-other loop_id c [] n = ground arith
active_cycles-snoc-other loop_id c (x ∷ cs) n =
    ground (arith, active_cycles-snoc-other loop_id c cs n)

pub insert_cycle-ok :
    (names : List String) (c : Cycle) (s : Store) {s' : Store}
    → insert_cycle names c s ≡ ok s'
    → (s'.cycles ≡ s.cycles ++ (c ∷ [])) × (s'.loops ≡ s.loops)
unfolding insert_cycle
insert_cycle-ok names c s h = rw (← (if-eq-ok _ _ h).1) (refl, refl)

module _ (cx : Context) where
  open_cycle-IsRenewed :
      (drawn : ℕ) (l : Loop) (s : Store) (n : ℕ) (s' : Store)
      → open_cycle cx drawn l s ≡ ok (n, s')
      → IsRenewed l s s'
  unfolding open_cycle
  open_cycle-IsRenewed drawn l s n s' e = through _ _ e λ s1 e1 g1. through _ _ g1 λ s2 e2 g2.
      let last : s2 ≡ s' = ap (λ x. x.1) (ok_inj g2) in
      let (cycles, loops) = insert_cycle-ok _ _ s {s' = s1} e1 in
      let kept = insert_event-apart (λ x. x.cycles) _ _ {s' = s2} (λ rows. refl) e2 in
      let ids = insert_event-apart (λ x. x.loops) _ _ {s' = s2} (λ rows. refl) e2 in
      rw (← last) record {
        ids = rw (ids, ← loops) (loop_ids-changed l.loop_id _ s1.loops (λ r. refl));
        own = rw (kept, cycles) (active_cycles-snoc l.loop_id _ s.cycles);
        others = λ i n. rw (kept, cycles) (active_cycles-snoc-other i _ s.cycles n);
      }

  create_cycle_for-IsRenewed :
      (drawn : ℕ) (l : Loop) (s : Store) → IsRenewed l s (create_cycle_for cx drawn l s).1
  unfolding create_cycle_for
  create_cycle_for-IsRenewed drawn l s =
      unrecorded-keeps (IsRenewed l s) "cycle" (cycle_key l) s (open_cycle cx drawn l s)
        (IsRenewed-refl l s) λ n s' e. open_cycle-IsRenewed drawn l s n s' e

IsRenewed-IsSingle :
    (l : Loop) (s s' : Store) → IsIdle s.cycles l → IsSingle s → IsRenewed l s s' → IsSingle s'
IsRenewed-IsSingle l s s' idle h d = (
  rw d.ids h.0,
  λ i. elim (Bool-cases (str_eq l.loop_id i)) [
    | inl e ↦
        let own = d.own in
        subst (λ j. active_cycles j s'.cycles ≤ 1) ((eq_iff l.loop_id i).0 e)
          (omega (arith, own, idle))
    | inr n ↦ rw (d.others i n) (h.1 i)
  ],
)

-- The loops that are still to come stay without an unfinished cycle.
others-IsIdle :
    (l : Loop) (s s' : Store) (rs : List Loop)
    → IsRenewed l s s'
    → All (λ j. str_eq j l.loop_id ≡ false) (loop_ids rs)
    → All (IsIdle s.cycles) rs
    → All (IsIdle s'.cycles) rs
others-IsIdle l s s' [] d u h = tt
others-IsIdle l s s' (r ∷ rs) d u h =
    (d.others r.loop_id (differs r.loop_id l.loop_id u.0) ∙ h.0, others-IsIdle l s s' rs d u.1 h.1)

renewals-IsSingle :
    (cx : Context) (rs : List Loop) (drawn count : ℕ) (s : Store)
    → IsUnique (loop_ids rs)
    → All (IsIdle s.cycles) rs
    → IsSingle s
    → IsSingle (sweep 2 (create_cycle_for cx) rs drawn count s).1
unfolding sweep
renewals-IsSingle cx [] drawn count s u idle h = h
renewals-IsSingle cx (r ∷ rs) drawn count s u idle h =
    let s' = (create_cycle_for cx drawn r s).1 in
    let d = create_cycle_for-IsRenewed cx drawn r s in
    let kept = IsRenewed-IsSingle r s s' idle.0 h d in
    elim (Result-cases (create_cycle_for cx drawn r s).0) [
      | inl (n, e) ↦
          rw (sweep, e)
            (renewals-IsSingle cx rs (drawn + 2) (count + n) s' u.1
              (others-IsIdle r s s' rs d u.0 idle.1) kept)
      | inr (e, n) ↦ rw (sweep, n) kept
    ]

module _ (p : Loop → Bool) where
  apart_filter :
      (i : String) (ls : List Loop)
      → All (λ j. str_eq j i ≡ false) (loop_ids ls)
      → All (λ j. str_eq j i ≡ false) (loop_ids (filter p ls))
  apart_filter i [] h = tt
  apart_filter i (l ∷ ls) h = ground (arith, apart_filter i ls h.1, h.0)

  IsUnique-filter : (ls : List Loop) → IsUnique (loop_ids ls) → IsUnique (loop_ids (filter p ls))
  IsUnique-filter [] u = tt
  IsUnique-filter (l ∷ ls) u = ground (arith, apart_filter l.loop_id ls u.0, IsUnique-filter ls u.1)

no_cycle :
    (i : String) (cs : List Cycle) → any (is_active_cycle_of i) cs ≡ false → active_cycles i cs ≡ 0
no_cycle i [] h = refl
no_cycle i (c ∷ cs) h = ground (arith, no_cycle i cs)

selected-IsIdle :
    (cs : List Cycle) (ls : List Loop)
    → All (IsIdle cs) (filter (λ l. not (any (is_active_cycle_of l.loop_id) cs)) ls)
selected-IsIdle cs [] = tt
selected-IsIdle cs (l ∷ ls) = elim (Bool-cases (any (is_active_cycle_of l.loop_id) cs)) [
  | inl e ↦ rw e (selected-IsIdle cs ls)
  | inr n ↦ rw n (no_cycle l.loop_id cs n, selected-IsIdle cs ls)
]

pub create_cycles_for_active_loops-IsSingle :
    (cx : Context) (s : Store) → IsSingle s → IsSingle (create_cycles_for_active_loops cx s).1
unfolding create_cycles_for_active_loops loops_without_active_cycle
create_cycles_for_active_loops-IsSingle cx s h =
    renewals-IsSingle cx (loops_without_active_cycle s) 0 0 s
      (IsUnique-filter (λ l. not (any (is_active_cycle_of l.loop_id) s.cycles)) s.loops h.0)
      (selected-IsIdle s.cycles s.loops) h
