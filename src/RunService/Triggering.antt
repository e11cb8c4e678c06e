-- ===== src/RunService/Triggering.antt =====
-- internal/application/service/run_service.go: TriggerRun and DeleteRun.
use vuhive_cloud.Common.{
  ◌≡◌, refl, sym, ap, ◌∙◌, inl, inr, Bool, true, false, none, some, [], Text, trim_space, is_blank,
  text_eq_iff, if◌then◌else◌, Error, not_found, validation, conflict, Result, ok, err, Result-cases,
  arith, Bool-cases, Option-cases,
}
use vuhive_cloud.Common.Int.{pos}
use vuhive_cloud.Common.Time.{Time}
use vuhive_cloud.Suite.{TestSuite, active}
use vuhive_cloud.Artifact.{Artifact}
use vuhive_cloud.Run.{TestRun, queued, failed, is_terminal, fail, set_k8s_job_name, new_test_run}
use vuhive_cloud.RunService.{Ports, RunService, RunnerJobOptions, TriggerRunCommand, is_ready}
use vuhive_cloud.RunService.Operations.{
  launch_run, settle_dispatch, trigger_run, prepare_run, delete_run, stop_job, delete_objects,
}
use vuhive_cloud.RunService.Laws.{IsLawful}
use vuhive_cloud.RunService.Storing.{err_ok, save_success}

some-none : {e : Error} → some e ≡ none → ⊥
some-none h = cc

fail_lem :
    (now : Time) (run : TestRun)
    → run.status ≡ queued
    → ((fail (pos 1) [] now run).0.id ≡ run.id)
      × ((fail (pos 1) [] now run).0.status ≡ failed)
      × ((fail (pos 1) [] now run).0.exit_code ≡ some (pos 1))
      × ((fail (pos 1) [] now run).0.finished_at ≡ some now)
unfolding fail
fail_lem now run h = ground arith

module _ {S : Type 0} (ports : Ports S) (service : RunService) where
  -- What TriggerRun has made sure of before it stores the run.
  prepare_run_lem :
      (uuid : Text) (now : Time) (cmd : TriggerRunCommand) (s : S)
      {p : TestRun × Text × RunnerJobOptions}
      → prepare_run ports service uuid now cmd s ≡ ok p
      → (p.0.id ≡ uuid)
        × (p.0.status ≡ queued)
        × ((suite : TestSuite) × (ports.find_suite (trim_space cmd.suite_id) s ≡ ok suite)
            × (suite.state ≡ active)
            × ((artifact : Artifact) × (ports.find_artifact (trim_space cmd.artifact_id) s
                  ≡ ok artifact)
                × (artifact.suite_id ≡ suite.id)
                × (is_ready artifact ≡ true)))
  unfolding prepare_run new_test_run
  prepare_run_lem uuid now cmd s h =
      elim (Result-cases (ports.find_suite (trim_space cmd.suite_id) s)) [
        | inr (x, e) ↦ absurd (ground (arith, e))
        | inl (suite, e) ↦
            elim (Result-cases (ports.find_artifact (trim_space cmd.artifact_id) s)) [
              | inr (x, f) ↦ absurd (ground (arith, e, f))
              | inl (artifact, f) ↦ (
                ground (arith, e, f),
                ground (arith, e, f),
                (
                  suite,
                  e,
                  ground (arith, e, f),
                  (
                    artifact,
                    f,
                    ground (arith, e, f, text_eq_iff artifact.suite_id suite.id),
                    ground (arith, e, f),
                  ),
                ),
              )
            ]
      ]

  -- The state in which DeleteRun deletes the row.
  abbrev purge : Bool → TestRun → S → S
  purge stored run s =
      if stored
      then delete_objects ports service run (stop_job ports service run s)
      else stop_job ports service run s

  the_delete :
      (id : Text) (s : S) (run : TestRun)
      → is_blank id ≡ false
      → ports.find_run (trim_space id) s ≡ ok run
      → is_terminal run.status ≡ true
      → delete_run ports service id s
        ≡ ports.delete_run (trim_space id) (purge service.has_storage run s)
  unfolding delete_run
  the_delete id s run b e f = rw (delete_run, b, e, f) refl

  settle_success :
      (laws : IsLawful ports) (now : Time) (run : TestRun) (job : Result Text) (s : S) {x : TestRun}
      → (settle_dispatch ports service now run job s).1 ≡ ok x
      → (x.id ≡ run.id)
        × (x.status ≡ run.status)
        × (ports.find_run x.id (settle_dispatch ports service now run job s).0 ≡ ok x)
  unfolding settle_dispatch set_k8s_job_name
  settle_success laws now run (err e) s h = absurd (err_ok h)
  settle_success laws now run (ok name) s h =
      let (same, found) = save_success ports service laws (set_k8s_job_name name run) s h in
      (ap (λ y. y.id) (sym same), ap (λ y. y.status) (sym same), found)

  launch_steps :
      (now : Time) (run : TestRun) (profile : Text) (o : RunnerJobOptions) (s : S)
      → (ports.save_run run s).1 ≡ none
      → launch_run ports service now run profile o s
        ≡ settle_dispatch ports service now run
            (ports.dispatch_job run profile o (ports.save_run run s).0).1
            (ports.dispatch_job run profile o (ports.save_run run s).0).0
  unfolding launch_run
  launch_steps now run profile o s h = rw (launch_run, h) refl

  trigger_steps :
      (uuid : Text) (now later : Time) (cmd : TriggerRunCommand) (s : S)
      {p : TestRun × Text × RunnerJobOptions}
      → prepare_run ports service uuid now cmd s ≡ ok p
      → trigger_run ports service uuid now later cmd s
        ≡ launch_run ports service later p.0 p.1 p.2 s
  unfolding trigger_run
  trigger_steps uuid now later cmd s h = rw (trigger_run, h) refl

  launch_success :
      (laws : IsLawful ports) (now : Time) (run : TestRun) (profile : Text) (o : RunnerJobOptions)
      (s : S) {x : TestRun}
      → (launch_run ports service now run profile o s).1 ≡ ok x
      → (x.id ≡ run.id)
        × (x.status ≡ run.status)
        × (ports.find_run x.id (launch_run ports service now run profile o s).0 ≡ ok x)
  unfolding launch_run
  launch_success laws now run profile o s {x} h = elim (Option-cases (ports.save_run run s).1) [
    | inr (e, f) ↦ absurd (err_ok (sym (ap (λ p. p.1) (refused e f)) ∙ h))
    | inl f ↦
        let same = launch_steps now run profile o s f in
        let (id, status, found) = settle_success laws now run _ _ (sym (ap (λ p. p.1) same) ∙ h) in
        (id, status, ap (λ p. ports.find_run x.id p.0) same ∙ found)
  ]
    where
      refused :
          (e : Error)
          → (ports.save_run run s).1 ≡ some e
          → launch_run ports service now run profile o s ≡ ((ports.save_run run s).0, err e)
      refused e f = rw (launch_run, f) refl

  -- With ports that keep their contracts, when TriggerRun succeeds, the run that it returns is stored under the new identifier and is queued;
  -- the suite was active, and the artifact was ready and one of that suite.
  pub trigger_run_stores :
      (laws : IsLawful ports) (uuid : Text) (now later : Time) (cmd : TriggerRunCommand) (s : S)
      (x : TestRun)
      → (trigger_run ports service uuid now later cmd s).1 ≡ ok x
      → (x.id ≡ uuid)
        × (x.status ≡ queued)
        × (ports.find_run x.id (trigger_run ports service uuid now later cmd s).0 ≡ ok x)
        × ((suite : TestSuite) × (ports.find_suite (trim_space cmd.suite_id) s ≡ ok suite)
            × (suite.state ≡ active)
            × ((artifact : Artifact) × (ports.find_artifact (trim_space cmd.artifact_id) s
                  ≡ ok artifact)
                × (artifact.suite_id ≡ suite.id)
                × (is_ready artifact ≡ true)))
  unfolding trigger_run
  trigger_run_stores laws uuid now later cmd s x h =
      elim (Result-cases (prepare_run ports service uuid now cmd s)) [
        | inr (e, f) ↦ absurd (err_ok (sym (ap (λ p. p.1) (refused e f)) ∙ h))
        | inl (p, f) ↦
            let same = trigger_steps uuid now later cmd s f in
            let (id, status, checks) = prepare_run_lem uuid now cmd s f in
            let (id', status', found) =
              launch_success laws later p.0 p.1 p.2 s (sym (ap (λ q. q.1) same) ∙ h) in
            (id' ∙ id, status' ∙ status, ap (λ q. ports.find_run x.id q.0) same ∙ found, checks)
      ]
    where
      refused :
          (e : Error)
          → prepare_run ports service uuid now cmd s ≡ err e
          → trigger_run ports service uuid now later cmd s ≡ (s, err e)
      refused e f = rw (trigger_run, f) refl

  -- With ports that keep their contracts, when the job cannot be dispatched, TriggerRun returns that error, and the run it had stored as
  -- queued is stored as failed, with exit code 1, as long as the database takes both writes.
  pub failed_dispatch_recorded :
      (laws : IsLawful ports) (uuid : Text) (now later : Time) (cmd : TriggerRunCommand) (s : S)
      (run : TestRun) (profile : Text) (o : RunnerJobOptions) (e : Error)
      → prepare_run ports service uuid now cmd s ≡ ok (run, profile, o)
      → ((r : TestRun) (s' : S) → (ports.save_run r s').1 ≡ none)
      → (ports.dispatch_job run profile o (ports.save_run run s).0).1 ≡ err e
      → ((trigger_run ports service uuid now later cmd s).1 ≡ err e)
        × ((x : TestRun) × (ports.find_run x.id (trigger_run ports service uuid now later cmd s).0
              ≡ ok x)
            × (x.id ≡ uuid)
            × (x.status ≡ failed)
            × (x.exit_code ≡ some (pos 1))
            × (x.finished_at ≡ some later))
  unfolding settle_dispatch
  failed_dispatch_recorded laws uuid now later cmd s run profile o e h writes d =
      let s1 = (ports.save_run run s).0 in
      let s2 = (ports.dispatch_job run profile o s1).0 in
      let broken = (fail (pos 1) [] later run).0 in
      let same =
        trigger_steps uuid now later cmd s h
        ∙ launch_steps later run profile o s (writes run s)
        ∙ ap (λ job. settle_dispatch ports service later run job s2) d in
      let (id, status, checks) = prepare_run_lem uuid now cmd s h in
      let (id', status', code, finish) = fail_lem later run status in
      (
        ap (λ p. p.1) same,
        (
          broken,
          ap (λ p. ports.find_run broken.id p.0) same
              ∙ laws.save_found broken s2 (writes broken s2),
          id' ∙ id,
          status',
          code,
          finish,
        ),
      )

  -- With ports that keep their contracts, when DeleteRun succeeds, no run is found under the identifier any more, and the run that was found
  -- there before was in a terminal status.
  pub delete_run_gone :
      (laws : IsLawful ports) (id : Text) (s : S)
      → (delete_run ports service id s).1 ≡ none
      → (ports.find_run (trim_space id) (delete_run ports service id s).0 ≡ err not_found)
        × ((run : TestRun) × (ports.find_run (trim_space id) s ≡ ok run)
            × (is_terminal run.status ≡ true))
  unfolding delete_run
  delete_run_gone laws id s h = elim (Bool-cases (is_blank id)) [
    | inl b ↦ absurd (refused validation (rw (delete_run, b) refl))
    | inr b ↦ elim (Result-cases (ports.find_run (trim_space id) s)) [
      | inr (x, e) ↦ absurd (refused x (rw (delete_run, b, e) refl))
      | inl (run, e) ↦ elim (Bool-cases (is_terminal run.status)) [
        | inr f ↦ absurd (refused conflict (rw (delete_run, b, e, f) refl))
        | inl f ↦
            let purged = purge service.has_storage run s in
            let same = the_delete id s run b e f in
            (
              ap (λ p. ports.find_run (trim_space id) p.0) same
                  ∙ laws.delete_gone (trim_space id) purged (sym (ap (λ p. p.1) same) ∙ h),
              (run, e, f),
            )
      ]
    ]
  ]
    where
      refused : (e : Error) → delete_run ports service id s ≡ (s, some e) → ⊥
      refused e k = some-none (sym (ap (λ p. p.1) k) ∙ h)
