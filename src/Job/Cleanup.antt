-- ===== src/Job/Cleanup.antt =====
-- `cleanup` of job.go: what it deletes and what it reports.
use mathlib.Core.List.{append_assoc, append-nil}
use kubejob.Prelude.{String, ◌<>◌, ◌≡◌, refl, sym, ap, ◌∙◌, Option, none, some, List, [], ◌∷◌, ◌++◌}
use kubejob.Kube.{Pod, BatchJob}
use kubejob.Errors.{Err, wrapped}
use kubejob.Cluster.{Cluster}
use kubejob.Job.{delete_pods, add_error, cleanup_result, cleanup, delete_listed, label_selector}

abbrev pub error_of : String → Option Err → List Err
error_of text none = []
error_of text (some e) = wrapped text e ∷ []

abbrev pub listed : Option (List Pod) → List Pod
listed none = []
listed (some pods) = pods

add_error-append :
    (errs : List Err) (text : String) (e : Option Err)
    → add_error errs text e ≡ errs ++ error_of text e
add_error-append errs text none = sym (append-nil errs)
add_error-append errs text (some e) = refl

module _ {W : Type 0} (k : Cluster W) where
  -- The world after the deletion of each pod was tried, and the errors of those that failed.
  unfoldable pub after_deletes : List Pod → W → W
  after_deletes [] w = w
  after_deletes (pod ∷ pods) w = after_deletes pods (k.delete_pod pod.name w).1

  pub failures : List Pod → W → List Err
  failures [] w = []
  failures (pod ∷ pods) w =
      error_of ("failed to delete pod " <> pod.name) (k.delete_pod pod.name w).0
      ++ failures pods (k.delete_pod pod.name w).1

  delete_pods_lem :
      (pods : List Pod) (errs : List Err) (w : W)
      → delete_pods k pods errs w ≡ (errs ++ failures pods w, after_deletes pods w)
  unfolding delete_pods failures after_deletes
  delete_pods_lem [] errs w = rw (append-nil errs)
  delete_pods_lem (pod ∷ pods) errs w =
      let text = "failed to delete pod " <> pod.name in
      let (e, w') = k.delete_pod pod.name w in
      delete_pods_lem pods (add_error errs text e) w'
      ∙ ap (λ es. (es, after_deletes pods w'))
          (ap (λ es. es ++ failures pods w') (add_error-append errs text e)
            ∙ append_assoc errs (error_of text e) (failures pods w'))

  delete_listed_lem :
      (name : String) (errs : List Err) (pods : Option (List Pod)) (w : W)
      → delete_listed k name errs pods w
        ≡ (cleanup_result name (errs ++ failures (listed pods) w), after_deletes (listed pods) w)
  unfolding delete_listed failures after_deletes
  delete_listed_lem name errs none w = rw (append-nil errs)
  delete_listed_lem name errs (some []) w = rw (append-nil errs)
  delete_listed_lem name errs (some (pod ∷ pods)) w =
      ap (λ r. (cleanup_result name r.0, r.1)) (delete_pods_lem (pod ∷ pods) errs w)

  -- The cleanup deletes the job, lists the pods and tries to delete each pod of the list, in order
  -- and whatever failed before. It returns nil if nothing failed, and otherwise a `CleanupError`
  -- with every error, in the order in which they came.
  pub cleanup_lem :
      (batch : BatchJob) (w : W)
      → let (e, w1) = k.delete_job batch.name w in
        let (pods, e', w2) = k.list_pods (label_selector batch) w1 in
        cleanup k batch w ≡ (
          cleanup_result batch.name (
              error_of "failed to delete job" e
              ++ (error_of "failed to list pod" e' ++ failures (listed pods) w2)),
          after_deletes (listed pods) w2,
        )
  unfolding cleanup
  cleanup_lem batch w =
      let (e, w1) = k.delete_job batch.name w in
      let (pods, e', w2) = k.list_pods (label_selector batch) w1 in
      let first = add_error [] "failed to delete job" e in
      delete_listed_lem batch.name (add_error first "failed to list pod" e') pods w2
      ∙ ap (λ es. (cleanup_result batch.name es, after_deletes (listed pods) w2))
          (ap (λ es. es ++ failures (listed pods) w2)
              (add_error-append first "failed to list pod" e'
                ∙ ap (λ es. es ++ error_of "failed to list pod" e')
                    (add_error-append [] "failed to delete job" e))
            ∙ append_assoc (error_of "failed to delete job" e) (error_of "failed to list pod" e')
                (failures (listed pods) w2))
