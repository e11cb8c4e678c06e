-- ===== src/RunService/Operations.antt =====
-- internal/application/service/run_service.go: the use cases that change a run.
use vuhive_cloud.Common.{
  ◌||◌, ◌&&◌, not, Option, none, some, [], ◌∷◌, ◌++◌, Text, codes, trim_space, is_empty, is_blank,
  text_eq, if◌then◌else◌, Error, conflict, validation, terminal_state, invalid_state_transition,
  Result, ok, err, reject_if, ◌>>=◌, ◌>>◌,
}
use vuhive_cloud.Common.Int.{pos}
use vuhive_cloud.Common.Time.{Time}
use vuhive_cloud.Suite.{TestSuite, is_active}
use vuhive_cloud.Run.{TestRun, is_terminal, new_test_run, complete, fail, abort, set_k8s_job_name}
use vuhive_cloud.RunService.{
  Ports, RunService, RunnerJobOptions, ParsedReport, TriggerRunCommand, CompleteRunCommand,
  is_not_found, is_ready, finish_time_of, first_key, started, is_none, exit_code_or_zero,
  with_exit_code,
}

module _ {S : Type 0} (ports : Ports S) (service : RunService) where
  -- `if err := s.runRepo.Save(ctx, run); err != nil { return nil, err }; return run, nil`.
  unfoldable pub save_and_return : TestRun → S → S × Result TestRun
  save_and_return run s =
      let (s', e) = ports.save_run run s in (s', elim e [ none ↦ ok run | some e ↦ err e ])

  -- The key of the configuration, empty where none is asked for.
  unfoldable pub configuration_key : Option Text → TestSuite → S → Result Text
  configuration_key none suite s = ok []
  configuration_key (some c) suite s = if is_blank c then ok [] else (do
    found ← ports.find_configuration (trim_space c) s
    reject_if (not (text_eq found.0 suite.id)) validation
    ok found.1)

  abbrev target_namespace : Option Text → Text
  target_namespace none = service.runner_namespace
  target_namespace (some n) = if is_blank n then service.runner_namespace else trim_space n

  -- The steps of `TriggerRun` before the first `Save`: the run, the profile, the options.
  unfoldable pub prepare_run :
      Text → Time → TriggerRunCommand → S → Result (TestRun × Text × RunnerJobOptions)
  prepare_run uuid now cmd s = do
    reject_if
        (is_blank cmd.suite_id || (is_blank cmd.artifact_id || is_blank cmd.runner_profile_id))
        validation
    suite ← ports.find_suite (trim_space cmd.suite_id) s
    reject_if (not (is_active suite.state)) invalid_state_transition
    artifact ← ports.find_artifact (trim_space cmd.artifact_id) s
    reject_if (not (text_eq artifact.suite_id suite.id)) validation
    reject_if (not (is_ready artifact)) invalid_state_transition
    config_key ← configuration_key cmd.configuration_id suite s
    profile ← ports.find_profile (trim_space cmd.runner_profile_id) s
    run ←
        new_test_run uuid now suite.id artifact.id cmd.configuration_id profile none
          (target_namespace cmd.runner_namespace ∷ [])
    ok (
      run,
      profile,
      record {
        s3_binary_key = artifact.s3_binary_key;
        s3_config_key = config_key;
        active_deadline_seconds = cmd.active_deadline_seconds;
      },
    )

  -- After `DispatchJob`: a run whose job was not dispatched is saved as failed.
  unfoldable pub settle_dispatch : Time → TestRun → Result Text → S → S × Result TestRun
  settle_dispatch now run (err e) s = ((ports.save_run (fail (pos 1) [] now run).0 s).0, err e)
  settle_dispatch now run (ok job) s = save_and_return (set_k8s_job_name job run) s

  -- From the first `Save` on.
  unfoldable pub launch_run : Time → TestRun → Text → RunnerJobOptions → S → S × Result TestRun
  launch_run now run profile options s =
      let (s1, e) = ports.save_run run s in
      elim e [
        | some e ↦ (s1, err e)
        | none ↦
            let (s2, job) = ports.dispatch_job run profile options s1 in
            settle_dispatch now run job s2
      ]

  -- `now` is the time of the creation, `later` that of a failed dispatch.
  unfoldable pub trigger_run : Text → Time → Time → TriggerRunCommand → S → S × Result TestRun
  trigger_run uuid now later cmd s = elim (prepare_run uuid now cmd s) [
    | err e ↦ (s, err e)
    | ok prepared ↦ launch_run later prepared.0 prepared.1 prepared.2 s
  ]

  -- The job of a run that has one is aborted, whatever the orchestrator answers.
  unfoldable pub stop_job : TestRun → S → S
  stop_job run s =
      if is_empty run.k8s_job_name
      then s
      else (ports.abort_job run.k8s_job_name run.k8s_namespace s).0

  -- The event of a saved abort; its error is logged.
  unfoldable pub announce : Text → Time → TestRun → S × Result TestRun → S × Result TestRun
  announce reason now run (s, err e) = (s, err e)
  announce reason now run (s, ok saved) =
      if service.has_publisher
      then ((ports.publish_aborted run.id run.suite_id reason now s).0, ok saved)
      else (s, ok saved)

  -- `run.Abort`, `Save` and the event.
  unfoldable pub abort_and_save : Text → Time → TestRun → S → S × Result TestRun
  abort_and_save reason now run s =
      let (run', e) = abort reason now run in
      elim e [ some e ↦ (s, err e) | none ↦ announce reason now run' (save_and_return run' s) ]

  abbrev pub reason_or_default : Text → Text
  reason_or_default reason =
      if is_blank reason then codes "manual cancellation" else trim_space reason

  unfoldable pub abort_run : Time → Text → Text → S → S × Result TestRun
  abort_run now id reason s =
      if is_blank id then (s, err validation) else elim (ports.find_run (trim_space id) s) [
        | err e ↦ (s, err e)
        | ok run ↦
            if is_terminal run.status
            then (s, err terminal_state)
            else abort_and_save (reason_or_default reason) now run (stop_job run s)
      ]

  unfoldable pub cleanup_run : Time → Text → S → S × Result TestRun
  cleanup_run now id s =
      if is_blank id then (s, err validation) else elim (ports.find_run (trim_space id) s) [
        | err e ↦ (s, err e)
        | ok run ↦
            let s' = stop_job run s in
            if is_terminal run.status
            then (s', ok run)
            else abort_and_save (codes "runtime cleaned") now run s'
      ]

  -- The identifier may be the name of the job.
  unfoldable pub find_for_completion : Text → S → Result TestRun
  find_for_completion id s = elim (ports.find_run id s) [
    | ok run ↦ ok run
    | err e ↦ if is_not_found e then ports.find_run_by_job id s else err e
  ]

  -- The summary of the command, or the report in the bucket.
  unfoldable pub summary_data : Text → Text → S → Text
  summary_data given report_key s =
      if is_blank given && (service.has_storage && not (is_empty report_key))
      then (elim (ports.download report_key s) [ none ↦ given | some bytes ↦ bytes ])
      else given

  unfoldable pub save_unless : TestRun × Option Error → S → S × Result TestRun
  save_unless (run, some e) s = (s, err e)
  save_unless (run, none) s = save_and_return run s

  -- `ParseSummaryReport` is `parse`.
  unfoldable pub ingest :
      (Text → Result ParsedReport)
      → CompleteRunCommand
      → Time
      → Text
      → Text
      → Text
      → TestRun
      → TestRun × Option Error
  ingest parse cmd finish report_key logs_key summary run =
      let failed = fail (exit_code_or_zero cmd.exit_code) logs_key finish run in
      if is_blank summary then failed else elim (parse summary) [
        | err e ↦ failed
        | ok report ↦
            let (run', e) =
              complete report.metrics report_key logs_key report.raw_json report.sla_passed finish
                run in
            (if is_none e then with_exit_code cmd.exit_code run' else run', e)
      ]

  unfoldable pub complete_run :
      (Text → Result ParsedReport) → Time → CompleteRunCommand → S → S × Result TestRun
  complete_run parse now cmd s =
      if is_blank cmd.run_id
      then (s, err validation)
      else elim (find_for_completion (trim_space cmd.run_id) s) [
        | err e ↦ (s, err e)
        | ok run ↦
            if is_terminal run.status
            then (s, err terminal_state)
            else (let finish = finish_time_of now cmd.finished_at in
                let run' = started finish run in
                let report_key =
                  first_key cmd.report_key run'.s3_report_key
                    (codes "runs/" ++ (run'.id ++ codes "/summary.json")) in
                let logs_key =
                  first_key cmd.logs_key run'.s3_logs_key
                    (codes "runs/" ++ (run'.id ++ codes "/run.log")) in
                let summary = summary_data cmd.summary_json report_key s in
                save_unless (ingest parse cmd finish report_key logs_key summary run') s)
      ]

  unfoldable pub delete_objects : TestRun → S → S
  delete_objects run s =
      let s1 =
        if is_empty run.s3_report_key then s else (ports.delete_object run.s3_report_key s).0 in
      if is_empty run.s3_logs_key then s1 else (ports.delete_object run.s3_logs_key s1).0

  -- `DeleteRun` returns an error alone.
  unfoldable pub delete_run : Text → S → S × Option Error
  delete_run id s =
      if is_blank id then (s, some validation) else elim (ports.find_run (trim_space id) s) [
        | err e ↦ (s, some e)
        | ok run ↦
            if not (is_terminal run.status)
            then (s, some conflict)
            else (let s1 = stop_job run s in
                let s2 = if service.has_storage then delete_objects run s1 else s1 in
                ports.delete_run (trim_space id) s2)
      ]
