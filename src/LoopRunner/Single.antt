-- ===== src/LoopRunner/Single.antt =====
-- services/loop-runner/src/tick.rs: the unfinished cycles of a loop.
use swarm_intelligence_engin.Prelude.{
  ◌≡◌, refl, ap, ◌∙◌, ℕ, ◌≤◌, false, List, [], ◌∷◌, ◌++◌, map, any, filter, length, All, IsUnique,
  String, str_eq, eq_iff, ok, through, ok_inj, or_false, arith,
}
use swarm_intelligence_engin.Store.{Store, Loop, Cycle, Event, changed, insert_event}
use swarm_intelligence_engin.Store.Inserts.{same_loop, insert_loop}
use swarm_intelligence_engin.Store.Lookup.{update-ok}
use swarm_intelligence_engin.LoopRunner.{cycle_in_phase, set_phase}
use swarm_intelligence_engin.LoopRunner.Creation.{is_active_cycle_of}
use swarm_intelligence_engin.LoopRunner.Rules.{insert_event-apart}

abbrev pub loop_ids : List Loop → List String
loop_ids ls = map (λ l. l.loop_id) ls

-- The number of unfinished cycles of the loop.
abbrev pub active_cycles : String → List Cycle → ℕ
active_cycles loop_id cs = length (filter (is_active_cycle_of loop_id) cs)

-- The identifiers of the loops are different, and no loop has two unfinished cycles.
abbrev pub IsSingle : Store → Type 0
IsSingle s = IsUnique (loop_ids s.loops) × ((loop_id : String) → active_cycles loop_id s.cycles ≤ 1)

-- The tables of the loops and of the cycles stay.
pub IsSingle-same :
    (s s' : Store) → IsSingle s → s'.cycles ≡ s.cycles → s'.loops ≡ s.loops → IsSingle s'
IsSingle-same s s' h e f = rw (e, f) h

abbrev pub entering : ℕ → String → Cycle → Cycle
entering now to c = record c { phase = to; updated_at = now }

active_cycles-entering :
    (now : ℕ) (to id from loop_id : String) (cs : List Cycle)
    → str_eq from "next_cycle_ready" ≡ false
    → active_cycles loop_id (changed (cycle_in_phase id from) (entering now to) cs)
      ≤ active_cycles loop_id cs
active_cycles-entering now to id from loop_id [] n = omega arith
active_cycles-entering now to id from loop_id (c ∷ cs) n =
    ground (arith, active_cycles-entering now to id from loop_id cs n, eq_iff c.phase from)

pub set_phase-ok :
    (now : ℕ) (to id from : String) (s : Store) {s' : Store}
    → set_phase now to id from s ≡ ok s'
    → record s { cycles = changed (cycle_in_phase id from) (entering now to) s.cycles } ≡ s'
unfolding set_phase
set_phase-ok now to id from s h = through _ _ h λ rows e g.
    ap (λ r. record s { cycles = r }) (update-ok _ _ _ s.cycles {rows' = rows} e) ∙ ok_inj g

-- A step out of an unfinished phase.
pub IsSingle-entering :
    (now : ℕ) (to id from : String) (s s' : Store)
    → str_eq from "next_cycle_ready" ≡ false
    → IsSingle s
    → set_phase now to id from s ≡ ok s'
    → IsSingle s'
IsSingle-entering now to id from s s' n h e =
    let p = set_phase-ok now to id from s {s' = s'} e in
    rw (← p) (
      h.0,
      λ l.
          let fewer = active_cycles-entering now to id from l s.cycles n in
          let most = h.1 l in omega (arith, fewer, most),
    )

-- An event leaves the loops and the cycles.
pub IsSingle-event :
    (e : Event) (s s' : Store) → IsSingle s → insert_event e s ≡ ok s' → IsSingle s'
IsSingle-event e s s' h g =
    IsSingle-same s s' h (insert_event-apart (λ x. x.cycles) e s {s' = s'} (λ rows. refl) g)
      (insert_event-apart (λ x. x.loops) e s {s' = s'} (λ rows. refl) g)

-- The row of a loop that has been created.
pub insert_loop-ok :
    (l : Loop) (s : Store) {s' : Store}
    → insert_loop l s ≡ ok s'
    → (s'.loops ≡ s.loops ++ (l ∷ []))
      × (s'.cycles ≡ s.cycles)
      × (any (same_loop l.loop_id) s.loops ≡ false)
unfolding insert_loop
insert_loop-ok l s h = ground arith

pub differs : (i j : String) → str_eq i j ≡ false → str_eq j i ≡ false
differs i j h = ground (arith, eq_iff i j, eq_iff j i)

apart_snoc :
    (i : String) (l : Loop) (ls : List Loop)
    → str_eq l.loop_id i ≡ false
    → All (λ j. str_eq j i ≡ false) (loop_ids ls)
    → All (λ j. str_eq j i ≡ false) (loop_ids (ls ++ (l ∷ [])))
apart_snoc i l [] n h = (n, tt)
apart_snoc i l (r ∷ ls) n h = (h.0, apart_snoc i l ls n h.1)

pub IsUnique-snoc :
    (l : Loop) (ls : List Loop)
    → any (same_loop l.loop_id) ls ≡ false
    → IsUnique (loop_ids ls)
    → IsUnique (loop_ids (ls ++ (l ∷ [])))
IsUnique-snoc l [] h u = (tt, tt)
IsUnique-snoc l (r ∷ ls) h u =
    let (n, rest) = or_false _ _ h in
    (apart_snoc r.loop_id l ls (differs r.loop_id l.loop_id n) u.0, IsUnique-snoc l ls rest u.1)
