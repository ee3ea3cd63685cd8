-- ===== src/Tasks/Reports.antt =====
-- What the three transactions that report on a task leave when they succeed.
use swarm_intelligence_engin.Prelude.{
  ◌≡◌, refl, subst, String, length, [], ok, ok_inj, through, guard-eq-ok, ok_or-eq-ok,
}
use swarm_intelligence_engin.Store.{Store}
use swarm_intelligence_engin.Tasks.{
  CompleteTaskRequest, FailTaskRequest, PatchTaskRequest, TaskLifecycleResponse, Context,
  store_artifacts,
}
use swarm_intelligence_engin.Tasks.Transactions.{complete_task_tx, fail_task_tx, patch_task_tx}
use swarm_intelligence_engin.Tasks.Steps.{IsReported, reported}

pub complete_task_tx-ok :
    (cx : Context) (id : String) (req : CompleteTaskRequest) (s : Store)
    → {r : TaskLifecycleResponse} {s' : Store} → complete_task_tx cx id req s ≡ ok (r, s')
    → IsReported cx.now id "succeeded" (length req.artifacts) s s' r
unfolding complete_task_tx
complete_task_tx-ok cx id req s h = through _ _ h λ t e h1. through _ _ h1 λ _ v h2.
    through _ _ h2 λ s1 e1 h3. through _ _ h3 λ s2 e2 h4. through _ _ h4 λ s3 e3 h5.
      through _ _ h5 λ out e4 h6. through _ _ h6 λ s5 e5 h7.
        subst (λ p. IsReported cx.now id "succeeded" (length req.artifacts) s p.1 p.0) (ok_inj h7)
          (reported cx id "succeeded" req.artifacts t _ s s1 s2 s3 out.0 out.1 (ok_or-eq-ok _ _ e)
            (guard-eq-ok _ _ v) e1 e2 e3 e4 e5)

pub fail_task_tx-ok :
    (cx : Context) (id : String) (req : FailTaskRequest) (s : Store)
    → {r : TaskLifecycleResponse} {s' : Store} → fail_task_tx cx id req s ≡ ok (r, s')
    → IsReported cx.now id "failed" 0 s s' r
unfolding fail_task_tx store_artifacts
fail_task_tx-ok cx id req s h = through _ _ h λ t e h1. through _ _ h1 λ _ v h2.
    through _ _ h2 λ s1 e1 h3. through _ _ h3 λ s2 e2 h4. through _ _ h4 λ s3 e3 h5.
      through _ _ h5 λ s4 e4 h6.
        subst (λ p. IsReported cx.now id "failed" 0 s p.1 p.0) (ok_inj h6)
          (reported cx id "failed" [] t _ s s1 s2 s3 s3 0 (ok_or-eq-ok _ _ e) (guard-eq-ok _ _ v) e1
            e2 e3 refl e4)

pub patch_task_tx-ok :
    (cx : Context) (id : String) (req : PatchTaskRequest) (s : Store)
    → {r : TaskLifecycleResponse} {s' : Store} → patch_task_tx cx id req s ≡ ok (r, s')
    → IsReported cx.now id req.status (length req.artifacts) s s' r
unfolding patch_task_tx
patch_task_tx-ok cx id req s h = through _ _ h λ t e h1. through _ _ h1 λ _ v h2.
    through _ _ h2 λ s1 e1 h3. through _ _ h3 λ s2 e2 h4. through _ _ h4 λ s3 e3 h5.
      through _ _ h5 λ out e4 h6. through _ _ h6 λ s5 e5 h7.
        subst (λ p. IsReported cx.now id req.status (length req.artifacts) s p.1 p.0) (ok_inj h7)
          (reported cx id req.status req.artifacts t _ s s1 s2 s3 out.0 out.1 (ok_or-eq-ok _ _ e)
            (guard-eq-ok _ _ v) e1 e2 e3 e4 e5)
