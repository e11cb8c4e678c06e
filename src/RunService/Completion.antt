-- ===== src/RunService/Completion.antt =====
-- internal/application/service/run_service.go: CompleteRun settles a run in flight.
use vuhive_cloud.Common.{
  ◌≡◌, refl, sym, ap, ◌∙◌, ◌⊎◌, inl, inr, true, false, Option, none, some, ◌++◌, Text, codes,
  trim_space, is_blank, Error, validation, terminal_state, Result, ok, err, is_ok, Result-cases,
  arith, Bool-cases,
}
use vuhive_cloud.Common.Time.{Time}
use vuhive_cloud.Run.{
  TestRun, completed, failed, is_terminal, is_valid, complete, fail, start, set_exit_code,
}
use vuhive_cloud.RunService.{
  Ports, RunService, ParsedReport, CompleteRunCommand, started, first_key, finish_time_of,
}
use vuhive_cloud.RunService.Operations.{
  save_and_return, complete_run, find_for_completion, save_unless, ingest, summary_data,
}
use vuhive_cloud.RunService.Laws.{IsLawful}
use vuhive_cloud.RunService.Storing.{err_ok, save_success}

module _ {S : Type 0} (ports : Ports S) (service : RunService)
    (parse : Text → Result ParsedReport) where
  ingest_settles :
      (cmd : CompleteRunCommand) (finish : Time) (report_key logs_key summary : Text)
      (run x : TestRun)
      → ingest ports service parse cmd finish report_key logs_key summary run ≡ (x, none)
      → (x.status ≡ completed) ⊎ (x.status ≡ failed)
  unfolding ingest complete fail set_exit_code
  ingest_settles cmd finish report_key logs_key summary run x h = ground arith

  ingest_total :
      (cmd : CompleteRunCommand) (finish : Time) (report_key logs_key summary : Text)
      (run : TestRun)
      → is_valid run.status ≡ true
      → is_terminal run.status ≡ false
      → (ingest ports service parse cmd finish report_key logs_key summary (started finish run)).1
        ≡ none
  unfolding ingest complete fail set_exit_code start
  ingest_total cmd finish report_key logs_key summary run v t = ground arith

  save_unless_success :
      (laws : IsLawful ports) (p : TestRun × Option Error) (s : S) {x : TestRun}
      → (save_unless ports service p s).1 ≡ ok x
      → (p ≡ (x, none)) × (ports.find_run x.id (save_unless ports service p s).0 ≡ ok x)
  unfolding save_unless
  save_unless_success laws (run, some e) s h = absurd (err_ok h)
  save_unless_success laws (run, none) s h =
      let (same, found) = save_success ports service laws run s h in
      (ap (λ y. (y, none)) same, found)

  -- What CompleteRun saves for a run in flight.
  unfoldable settlement : Time → CompleteRunCommand → TestRun → S → TestRun × Option Error
  settlement now cmd run s =
      let finish = finish_time_of now cmd.finished_at in
      let run' = started finish run in
      let report_key =
        first_key cmd.report_key run'.s3_report_key
          (codes "runs/" ++ (run'.id ++ codes "/summary.json")) in
      let logs_key =
        first_key cmd.logs_key run'.s3_logs_key (codes "runs/" ++ (run'.id ++ codes "/run.log")) in
      ingest ports service parse cmd finish report_key logs_key
        (summary_data ports service cmd.summary_json report_key s) run'

  complete_run_in_flight :
      (now : Time) (cmd : CompleteRunCommand) (s : S) (run : TestRun)
      → is_blank cmd.run_id ≡ false
      → find_for_completion ports service (trim_space cmd.run_id) s ≡ ok run
      → is_terminal run.status ≡ false
      → complete_run ports service parse now cmd s
        ≡ save_unless ports service (settlement now cmd run s) s
  unfolding complete_run settlement
  complete_run_in_flight now cmd s run b e f = rw (complete_run, b, e, f) refl

  complete_run_steps :
      (now : Time) (cmd : CompleteRunCommand) (s : S) {x : TestRun}
      → (complete_run ports service parse now cmd s).1 ≡ ok x
      → (run : TestRun) × (complete_run ports service parse now cmd s
          ≡ save_unless ports service (settlement now cmd run s) s)
  unfolding complete_run
  complete_run_steps now cmd s {x} h = elim (Bool-cases (is_blank cmd.run_id)) [
    | inl b ↦ absurd (refused validation (rw (complete_run, b) refl))
    | inr b ↦ elim (Result-cases (find_for_completion ports service (trim_space cmd.run_id) s)) [
      | inr (y, e) ↦ absurd (refused y (rw (complete_run, b, e) refl))
      | inl (run, e) ↦ elim (Bool-cases (is_terminal run.status)) [
        | inl f ↦ absurd (refused terminal_state (rw (complete_run, b, e, f) refl))
        | inr f ↦ (run, complete_run_in_flight now cmd s run b e f)
      ]
    ]
  ]
    where
      refused : (e : Error) → complete_run ports service parse now cmd s ≡ (s, err e) → ⊥
      refused e k = err_ok (sym (ap (λ p. p.1) k) ∙ h)

  settlement_settles :
      (now : Time) (cmd : CompleteRunCommand) (run x : TestRun) (s : S)
      → settlement now cmd run s ≡ (x, none)
      → (x.status ≡ completed) ⊎ (x.status ≡ failed)
  unfolding settlement
  settlement_settles now cmd run x s h = ingest_settles cmd _ _ _ _ _ x h

  settlement_total :
      (now : Time) (cmd : CompleteRunCommand) (run : TestRun) (s : S)
      → is_valid run.status ≡ true
      → is_terminal run.status ≡ false
      → (settlement now cmd run s).1 ≡ none
  unfolding settlement
  settlement_total now cmd run s v t = ingest_total cmd _ _ _ _ run v t

  saves :
      (p : TestRun × Option Error) (s : S)
      → p.1 ≡ none
      → ((r : TestRun) → (ports.save_run r s).1 ≡ none)
      → is_ok (save_unless ports service p s).1 ≡ true
  unfolding save_unless save_and_return
  saves (run, some e) s h writes = cc
  saves (run, none) s h writes = rw (save_and_return, writes run) refl

  -- With ports that keep their contracts, when CompleteRun succeeds, the run that it returns is stored under its identifier, and it is
  -- completed or failed.
  pub complete_run_stores :
      (laws : IsLawful ports) (now : Time) (cmd : CompleteRunCommand) (s : S) (x : TestRun)
      → (complete_run ports service parse now cmd s).1 ≡ ok x
      → (ports.find_run x.id (complete_run ports service parse now cmd s).0 ≡ ok x)
        × ((x.status ≡ completed) ⊎ (x.status ≡ failed))
  complete_run_stores laws now cmd s x h =
      let (run, same) = complete_run_steps now cmd s h in
      let (settled, stored) =
        save_unless_success laws (settlement now cmd run s) s (sym (ap (λ p. p.1) same) ∙ h) in
      (ap (λ p. ports.find_run x.id p.0) same ∙ stored, settlement_settles now cmd run x s settled)

  -- CompleteRun with an identifier that is not blank, for a run that it finds in flight, queued or running, succeeds whatever the report
  -- holds or lacks, as long as the database takes the write.
  pub complete_run_succeeds :
      (now : Time) (cmd : CompleteRunCommand) (s : S) (run : TestRun)
      → is_blank cmd.run_id ≡ false
      → find_for_completion ports service (trim_space cmd.run_id) s ≡ ok run
      → is_valid run.status ≡ true
      → is_terminal run.status ≡ false
      → ((r : TestRun) → (ports.save_run r s).1 ≡ none)
      → is_ok (complete_run ports service parse now cmd s).1 ≡ true
  complete_run_succeeds now cmd s run b e v t writes =
      ap (λ p. is_ok p.1) (complete_run_in_flight now cmd s run b e t)
      ∙ saves (settlement now cmd run s) s (settlement_total now cmd run s v t) writes
