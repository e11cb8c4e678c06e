-- ===== src/RunService/Laws.antt =====
-- What the use cases of internal/application/service/run_service.go rely on: the contracts of
-- TestRunRepository and of the ports that do not touch it.
use vuhive_cloud.Common.{◌≡◌, false, none, Text, text_eq, not_found, ok, err}
use vuhive_cloud.Common.Time.{Time}
use vuhive_cloud.Run.{TestRun}
use vuhive_cloud.RunService.{Ports, RunnerJobOptions}

pub record IsLawful {S : Type 0} (ports : Ports S) : Type 0 where
  pub save_found :
      (r : TestRun) (s : S)
      → (ports.save_run r s).1 ≡ none
      → ports.find_run r.id (ports.save_run r s).0 ≡ ok r
  pub save_other :
      (r : TestRun) (s : S) (j : Text)
      → text_eq r.id j ≡ false
      → ports.find_run j (ports.save_run r s).0 ≡ ports.find_run j s
  pub found_id : (j : Text) (s : S) (r : TestRun) → ports.find_run j s ≡ ok r → r.id ≡ j
  pub found_by_job :
      (j : Text) (s : S) (r : TestRun)
      → ports.find_run_by_job j s ≡ ok r
      → ports.find_run r.id s ≡ ok r
  pub delete_gone :
      (j : Text) (s : S)
      → (ports.delete_run j s).1 ≡ none
      → ports.find_run j (ports.delete_run j s).0 ≡ err not_found
  pub delete_other :
      (k : Text) (s : S) (j : Text)
      → text_eq k j ≡ false
      → ports.find_run j (ports.delete_run k s).0 ≡ ports.find_run j s
  pub dispatch_keeps :
      (r : TestRun) (profile : Text) (o : RunnerJobOptions) (s : S) (j : Text)
      → ports.find_run j (ports.dispatch_job r profile o s).0 ≡ ports.find_run j s
  pub abort_job_keeps :
      (name namespace : Text) (s : S) (j : Text)
      → ports.find_run j (ports.abort_job name namespace s).0 ≡ ports.find_run j s
  pub delete_object_keeps :
      (key : Text) (s : S) (j : Text)
      → ports.find_run j (ports.delete_object key s).0 ≡ ports.find_run j s
  pub publish_keeps :
      (id suite reason : Text) (now : Time) (s : S) (j : Text)
      → ports.find_run j (ports.publish_aborted id suite reason now s).0 ≡ ports.find_run j s
