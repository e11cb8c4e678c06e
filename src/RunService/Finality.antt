-- ===== src/RunService/Finality.antt =====
-- internal/application/service/run_service.go: a run in a terminal status is final for every use case
-- but its own deletion.
use vuhive_cloud.Common.{
  ◌≡◌, refl, ◌∙◌, ◌⊎◌, inl, inr, Bool, true, false, Option, none, some, List, [], ◌∷◌, Text,
  trim_space, is_empty, is_blank, text_eq, if◌then◌else◌, Error, Result, ok, err, Result-cases,
  arith, Bool-cases, Option-cases, All,
}
use vuhive_cloud.Common.Int.{ℤ, pos}
use vuhive_cloud.Common.Time.{Time}
use vuhive_cloud.Run.{
  TestRun, is_terminal, fail, complete, start, set_k8s_job_name, set_exit_code, new_test_run,
}
use vuhive_cloud.RunService.{
  Ports, RunService, RunnerJobOptions, ParsedReport, TriggerRunCommand, CompleteRunCommand, started,
  is_not_found,
}
use vuhive_cloud.RunService.Operations.{
  launch_run, settle_dispatch, trigger_run, stop_job, complete_run, find_for_completion,
  save_unless, ingest, delete_objects, delete_run, prepare_run,
}
use vuhive_cloud.RunService.Calls.{
  Operation, triggers, aborts, cleans, completes, deletes, Spares, perform, perform_all,
}
use vuhive_cloud.RunService.Laws.{IsLawful}
use vuhive_cloud.RunService.Keeping.{
  distinct, stop_job_keeps, save_keeps, loaded, abort_run_keeps, cleanup_run_keeps,
}

started_id : (now : Time) (run : TestRun) → (started now run).id ≡ run.id
unfolding start
started_id now run = ground arith

fail_id : (c : ℤ) (key : Text) (t : Time) (run : TestRun) → (fail c key t run).0.id ≡ run.id
unfolding fail
fail_id c key t run = ground arith

module _ {S : Type 0} (ports : Ports S) (service : RunService) where
  ingest_id :
      (parse : Text → Result ParsedReport) (cmd : CompleteRunCommand) (finish : Time)
      (report_key logs_key summary : Text) (run : TestRun)
      → (ingest ports service parse cmd finish report_key logs_key summary run).0.id ≡ run.id
  unfolding ingest complete fail set_exit_code
  ingest_id parse cmd finish report_key logs_key summary run = ground arith

  prepared_id :
      (uuid : Text) (now : Time) (cmd : TriggerRunCommand) (s : S)
      {p : TestRun × Text × RunnerJobOptions}
      → prepare_run ports service uuid now cmd s ≡ ok p
      → p.0.id ≡ uuid
  unfolding prepare_run new_test_run
  prepared_id uuid now cmd s h = ground arith

either_found :
    (o p : Result TestRun) (run : TestRun)
    → elim o [ ok found ↦ ok found | err e ↦ if is_not_found e then p else err e ] ≡ ok run
    → (o ≡ ok run) ⊎ (p ≡ ok run)
either_found (ok found) p run h = inl h
either_found (err e) p run h = second (is_not_found e) h
  where
    second : (b : Bool) → (if b then p else err e) ≡ ok run → (Result.err e ≡ ok run) ⊎ (p ≡ ok run)
    second true k = inr k
    second false k = inl k

module _ {S : Type 0} (ports : Ports S) (service : RunService)
    (parse : Text → Result ParsedReport) where
  module _ (laws : IsLawful ports) where
    settle_keeps :
        (now : Time) (run : TestRun) (job : Result Text) (s : S) (j : Text)
        → text_eq run.id j ≡ false
        → ports.find_run j (settle_dispatch ports service now run job s).0 ≡ ports.find_run j s
    unfolding settle_dispatch set_k8s_job_name
    settle_keeps now run (err e) s j h =
        laws.save_other (fail (pos 1) [] now run).0 s j (rw (fail_id (pos 1) [] now run) h)
    settle_keeps now run (ok job) s j h =
        save_keeps ports service laws (set_k8s_job_name job run) s j h

    launch_keeps :
        (now : Time) (run : TestRun) (profile : Text) (o : RunnerJobOptions) (s : S) (j : Text)
        → text_eq run.id j ≡ false
        → ports.find_run j (launch_run ports service now run profile o s).0 ≡ ports.find_run j s
    unfolding launch_run
    launch_keeps now run profile o s j h =
        let s1 = (ports.save_run run s).0 in
        elim (Option-cases (ports.save_run run s).1) [
          | inr (x, e) ↦ rw (launch_run, e) (laws.save_other run s j h)
          | inl e ↦
              rw (launch_run, e)
                (settle_keeps now run _ (ports.dispatch_job run profile o s1).0 j h
                  ∙ laws.dispatch_keeps run profile o s1 j
                  ∙ laws.save_other run s j h)
        ]

    trigger_keeps :
        (uuid : Text) (now later : Time) (cmd : TriggerRunCommand) (s : S) (j : Text)
        → text_eq uuid j ≡ false
        → ports.find_run j (trigger_run ports service uuid now later cmd s).0 ≡ ports.find_run j s
    unfolding trigger_run
    trigger_keeps uuid now later cmd s j h =
        elim (Result-cases (prepare_run ports service uuid now cmd s)) [
          | inr (x, e) ↦ rw (trigger_run, e) refl
          | inl (p, e) ↦
              rw (trigger_run, e)
                (launch_keeps later p.0 p.1 p.2 s j
                  (rw (prepared_id ports service uuid now cmd s e) h))
        ]

    save_unless_keeps :
        (p : TestRun × Option Error) (s : S) (j : Text)
        → text_eq p.0.id j ≡ false
        → ports.find_run j (save_unless ports service p s).0 ≡ ports.find_run j s
    unfolding save_unless
    save_unless_keeps (run, none) s j h = save_keeps ports service laws run s j h
    save_unless_keeps (run, some e) s j h = refl

    loaded_for_completion :
        (id : Text) (s : S) (run : TestRun)
        → find_for_completion ports service id s ≡ ok run
        → ports.find_run run.id s ≡ ok run
    unfolding find_for_completion
    loaded_for_completion id s run h =
        elim (either_found (ports.find_run id s) (ports.find_run_by_job id s) run h) [
          | inl e ↦ loaded ports service laws id s run e
          | inr e ↦ laws.found_by_job id s run e
        ]

    complete_run_keeps :
        (now : Time) (cmd : CompleteRunCommand) (j : Text) (s : S) (r : TestRun)
        → ports.find_run j s ≡ ok r
        → is_terminal r.status ≡ true
        → ports.find_run j (complete_run ports service parse now cmd s).0 ≡ ports.find_run j s
    unfolding complete_run
    complete_run_keeps now cmd j s r h t = elim (Bool-cases (is_blank cmd.run_id)) [
      | inl b ↦ rw (complete_run, b) refl
      | inr b ↦ elim (Result-cases (find_for_completion ports service (trim_space cmd.run_id) s)) [
        | inr (x, e) ↦ rw (complete_run, b, e) refl
        | inl (run, e) ↦ elim (Bool-cases (is_terminal run.status)) [
          | inl f ↦ rw (complete_run, b, e, f) refl
          | inr f ↦
              rw (complete_run, b, e, f)
                (save_unless_keeps _ s j (
                  rw (ingest_id ports service parse cmd _ _ _ _ _, started_id _ run)
                    (distinct ports service laws j s r run h t
                      (loaded_for_completion (trim_space cmd.run_id) s run e) f)))
        ]
      ]
    ]

    delete_objects_keeps :
        (run : TestRun) (s : S) (j : Text)
        → ports.find_run j (delete_objects ports service run s) ≡ ports.find_run j s
    unfolding delete_objects
    delete_objects_keeps run s j = elim (Bool-cases (is_empty run.s3_report_key)) [
      | inl e ↦ elim (Bool-cases (is_empty run.s3_logs_key)) [
        | inl f ↦ rw (delete_objects, e, f) refl
        | inr f ↦ rw (delete_objects, e, f) (laws.delete_object_keeps run.s3_logs_key s j)
      ]
      | inr e ↦
          let s1 = (ports.delete_object run.s3_report_key s).0 in
          elim (Bool-cases (is_empty run.s3_logs_key)) [
            | inl f ↦ rw (delete_objects, e, f) (laws.delete_object_keeps run.s3_report_key s j)
            | inr f ↦
                rw (delete_objects, e, f)
                  (laws.delete_object_keeps run.s3_logs_key s1 j
                    ∙ laws.delete_object_keeps run.s3_report_key s j)
          ]
    ]

    purge_keeps :
        (stored : Bool) (run : TestRun) (s : S) (j : Text)
        → ports.find_run j (
            if stored
            then delete_objects ports service run (stop_job ports service run s)
            else stop_job ports service run s)
          ≡ ports.find_run j s
    purge_keeps true run s j =
        delete_objects_keeps run (stop_job ports service run s) j
        ∙ stop_job_keeps ports service laws run s j
    purge_keeps false run s j = stop_job_keeps ports service laws run s j

    delete_run_keeps :
        (id : Text) (s : S) (j : Text)
        → text_eq (trim_space id) j ≡ false
        → ports.find_run j (delete_run ports service id s).0 ≡ ports.find_run j s
    unfolding delete_run
    delete_run_keeps id s j h = elim (Bool-cases (is_blank id)) [
      | inl b ↦ rw (delete_run, b) refl
      | inr b ↦ elim (Result-cases (ports.find_run (trim_space id) s)) [
        | inr (x, e) ↦ rw (delete_run, b, e) refl
        | inl (run, e) ↦ elim (Bool-cases (is_terminal run.status)) [
          | inr f ↦ rw (delete_run, b, e, f) refl
          | inl f ↦
              rw (delete_run, b, e, f)
                (laws.delete_other (trim_space id) _ j h ∙ purge_keeps service.has_storage run s j)
        ]
      ]
    ]

    perform_keeps :
        (o : Operation) (j : Text) (s : S) (r : TestRun)
        → ports.find_run j s ≡ ok r
        → is_terminal r.status ≡ true
        → Spares j o
        → ports.find_run j (perform ports service parse o s) ≡ ports.find_run j s
    unfolding perform
    perform_keeps (triggers uuid now later cmd) j s r h t spares =
        trigger_keeps uuid now later cmd s j spares
    perform_keeps (aborts now id reason) j s r h t spares =
        abort_run_keeps ports service laws j s r h t now id reason
    perform_keeps (cleans now id) j s r h t spares =
        cleanup_run_keeps ports service laws j s r h t now id
    perform_keeps (completes now cmd) j s r h t spares = complete_run_keeps now cmd j s r h t
    perform_keeps (deletes id) j s r h t spares = delete_run_keeps id s j spares

    -- With ports that keep their contracts, a run in a terminal status is final: whatever use cases are
    -- called one after the other, with whatever arguments and errors of the ports, the run is stored exactly as it was, as long as it
    -- is not deleted and no new run gets its identifier.
    pub terminal_final :
        (os : List Operation) (j : Text) (s : S) (r : TestRun)
        → ports.find_run j s ≡ ok r
        → is_terminal r.status ≡ true
        → All (Spares j) os
        → ports.find_run j (perform_all ports service parse os s) ≡ ok r
    unfolding perform_all
    terminal_final [] j s r h t spares = h
    terminal_final (o ∷ os) j s r h t spares =
        terminal_final os j (perform ports service parse o s) r
          (perform_keeps o j s r h t spares.0 ∙ h) t spares.1
