-- ===== src/Store/Lookup.antt =====
-- Tasks looked up by their primary key, and what each statement on the tables changes.
use swarm_intelligence_engin.Prelude.{
  ℕ, IsUnique, some_inj, ◌≡◌, refl, sym, ap, ◌∙◌, ◌⊎◌, inl, inr, Bool, false, ◌&&◌, not, any,
  if-eq-ok, if◌then◌else◌, List, [], ◌∷◌, ◌++◌, map, find?, Option, none, some, String, str_eq,
  eq_iff, eq_refl, All, filter, Bool-cases, subst, ok, ◌>>=◌, arith,
}
use swarm_intelligence_engin.Store.{
  Task, TaskAttempt, ArtifactRef, Event, Store, internal_error, changed, update, same_task,
  same_node, artifact_kind_allowed, set_task_status, set_node_lifecycle, finish_attempts,
  insert_artifact, insert_event,
}

abbrev pub status_in : Option Task → Option String
status_in none = none
status_in (some t) = some t.status

-- The status of the task with this primary key.
abbrev pub status_of : String → List Task → Option String
status_of id ts = status_in (find? (same_task id) ts)

abbrev pub with_status : ℕ → String → Task → Task
with_status now status t = record t { status = status; updated_at = now }

module _ (now : ℕ) (v id : String) where
  pub status_of-changed :
      (ts : List Task) {a : String}
      → status_of id ts ≡ some a
      → status_of id (changed (same_task id) (with_status now v) ts) ≡ some v
  status_of-changed [] h = cc
  status_of-changed (t ∷ ts) {a} h = ground (arith, status_of-changed ts {a = a})

  pub status_of-changed-other :
      (ts : List Task) (other : String)
      → str_eq id other ≡ false
      → status_of other (changed (same_task id) (with_status now v) ts) ≡ status_of other ts
  status_of-changed-other [] other n = refl
  status_of-changed-other (t ∷ ts) other n =
      ground (arith, status_of-changed-other ts other n, eq_iff t.task_id id)

  pub task_ids-changed :
      (ts : List Task)
      → map (λ t. t.task_id) (changed (same_task id) (with_status now v) ts)
        ≡ map (λ t. t.task_id) ts
  task_ids-changed [] = refl
  task_ids-changed (t ∷ ts) = ground (arith, task_ids-changed ts)

pub update-ok :
    {A : Type 0} (selects : A → Bool) (change : A → A) (check : A → Bool) (rows : List A)
    → {rows' : List A} → update selects change check rows ≡ ok rows'
    → changed selects change rows ≡ rows'
unfolding update
update-ok selects change check rows h = ground arith

module _ (now : ℕ) (s : Store) {s' : Store} where
  pub set_task_status-ok :
      (v id : String)
      → set_task_status now v id s ≡ ok s'
      → record s { tasks = changed (same_task id) (with_status now v) s.tasks } ≡ s'
  unfolding set_task_status update ◌>>=◌
  set_task_status-ok v id h = ground arith

  pub set_node_lifecycle-ok :
      (v id : String)
      → set_node_lifecycle now v id s ≡ ok s'
      → record s {
        nodes = changed (same_node id) (λ n. record n { lifecycle = v; updated_at = now }) s.nodes;
      }
        ≡ s'
  unfolding set_node_lifecycle update ◌>>=◌
  set_node_lifecycle-ok v id h = ground arith

  pub finish_attempts-ok :
      (v : String) (selects : TaskAttempt → Bool)
      → finish_attempts now v selects s ≡ ok s'
      → record s {
        task_attempts =
            changed selects (λ a. record a { status = v; finished_at = some now }) s.task_attempts;
      }
        ≡ s'
  unfolding finish_attempts update ◌>>=◌
  finish_attempts-ok v selects h = ground arith

  pub insert_artifact-ok :
      (a : ArtifactRef)
      → insert_artifact a s ≡ ok s'
      → record s { artifact_refs = s.artifact_refs ++ (a ∷ []) } ≡ s'
  unfolding insert_artifact
  insert_artifact-ok a h =
      (if-eq-ok
        (artifact_kind_allowed a.artifact_kind
          && not (any (λ b. str_eq b.artifact_ref_id a.artifact_ref_id) s.artifact_refs))
        internal_error h).1

  pub insert_event-ok :
      (e : Event)
      → insert_event e s ≡ ok s'
      → (s ≡ s') ⊎ (record s { event_journal = s.event_journal ++ (e ∷ []) } ≡ s')
  unfolding insert_event
  insert_event-ok e h = ground arith

-- A status that is given to a row, if there is one.
abbrev pub given : String → Option String → Option String
given v none = none
given v (some a) = some v

pub status_of-changed-all :
    (now : ℕ) (v id : String) (ts : List Task) (other : String)
    → status_of other (changed (same_task id) (with_status now v) ts)
      ≡ (if str_eq id other then given v (status_of other ts) else status_of other ts)
status_of-changed-all now v id [] other = elim (Bool-cases (str_eq id other)) [
  | inl e ↦ rw e refl
  | inr n ↦ rw n refl
]
status_of-changed-all now v id (t ∷ ts) other = ground (
  arith,
  status_of-changed-all now v id ts other,
  eq_iff t.task_id id,
  eq_iff id other,
  eq_refl other,
)

abbrev pub keys : List Task → List String
keys ts = map (λ t. t.task_id) ts

not_among :
    (p : Task → Bool) (id : String) (ts : List Task)
    → All (λ j. str_eq j id ≡ false) (keys ts)
    → any (λ j. str_eq j id) (keys (filter p ts)) ≡ false
not_among p id [] h = refl
not_among p id (t ∷ ts) h = ground (arith, not_among p id ts h.1)

-- A row is among those that pass a test exactly when it passes.
pub any-keys-filter :
    (p : Task → Bool) (id : String) (ts : List Task) {t : Task}
    → IsUnique (keys ts)
    → find? (same_task id) ts ≡ some t
    → any (λ j. str_eq j id) (keys (filter p ts)) ≡ p t
any-keys-filter p id [] u h = cc
any-keys-filter p id (x ∷ ts) {t} u h = elim (Bool-cases (str_eq x.task_id id)) [
  | inl e ↦
      let same = (eq_iff x.task_id id).0 e in
      let absent =
        not_among p id ts (subst (λ i. All (λ j. str_eq j i ≡ false) (keys ts)) same u.0) in
      let head = some_inj (rw e at h) in
      let passes = ap p head in
      elim (Bool-cases (p x)) [
        | inl q ↦ rw (q, e) (sym q ∙ passes)
        | inr q ↦ rw (q, absent) (sym q ∙ passes)
      ]
  | inr n ↦
      let rest = any-keys-filter p id ts {t = t} u.1 (rw n at h) in
      elim (Bool-cases (p x)) [ inl q ↦ rw (q, n) rest | inr q ↦ rw q rest ]
]
