-- ===== src/Machine.antt =====
-- Transition tables: the runs that a Boolean table of legal moves allows.
use swarm_intelligence_engin.Prelude.{◌≡◌, ◌≢◌, Bool, true}

module _ {A : Type 0} (valid : A → A → Bool) where
  -- The states that legal moves lead to from `start`.
  pub data Run (start : A) : A → Type 0 where
    here : Run start start
    next : {s t : A} → Run start s → valid s t ≡ true → Run start t

  -- The same, by runs on which `x` never occurs.
  pub data RunAvoiding (x start : A) : A → Type 0 where
    here : start ≢ x → RunAvoiding x start start
    next : {s t : A} → RunAvoiding x start s → valid s t ≡ true → t ≢ x → RunAvoiding x start t

  -- A predicate that every legal move keeps holds along a run.
  pub Run-keeps :
      (P : A → Type 0)
      → ((s t : A) → valid s t ≡ true → P s → P t)
      → {start t : A} → P start
      → Run start t
      → P t
  Run-keeps P keep p here = p
  Run-keeps P keep p (next {s} {t} r v) = keep s t v (Run-keeps P keep p r)

  -- The same along a run that avoids `x`, where the moves into `x` need not keep it.
  pub RunAvoiding-keeps :
      (P : A → Type 0) (x : A)
      → ((s t : A) → valid s t ≡ true → t ≢ x → P s → P t)
      → {start t : A} → (start ≢ x → P start)
      → RunAvoiding x start t
      → P t
  RunAvoiding-keeps P x keep p (here n) = p n
  RunAvoiding-keeps P x keep p (next {s} {t} r v n) = keep s t v n (RunAvoiding-keeps P x keep p r)

  pub Run-prepend : {s t u : A} → valid s t ≡ true → Run t u → Run s u
  Run-prepend v Run.here = Run.next Run.here v
  Run-prepend v (Run.next r w) = Run.next (Run-prepend v r) w

  pub Run-append : {s t u : A} → Run s t → Run t u → Run s u
  Run-append r Run.here = r
  Run-append r (Run.next q v) = Run.next (Run-append r q) v
