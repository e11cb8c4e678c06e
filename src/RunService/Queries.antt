-- ===== src/RunService/Queries.antt =====
-- internal/application/service/run_service.go: the queries, which change nothing. The listing of the
-- repository and the signing of a download are arguments; a download that fails is `none`.
use vuhive_cloud.Common.{
  ◌≡◌, Bool, true, false, not, ◌&&◌, ◌||◌, Option, none, some, List, Text, trim_space, is_blank,
  is_empty, if◌then◌else◌, refl, is_ok, Bool-cases, inl, inr, Result, ok, err, reject_if, ◌>>◌,
  ◌>>=◌, validation, run_in_flight, report_not_found, logs_not_found,
}
use vuhive_cloud.Common.Int.{ℤ, pos, ltb_ℤ, leb_ℤ}
use vuhive_cloud.Common.Time.{Time, Duration}
use vuhive_cloud.Run.{TestRun, RunStatus}
use vuhive_cloud.RunService.{Ports, RunService}

pub record RunFilter : Type 0 where
  pub suite_id : Text
  pub schedule_id : Text
  pub status : RunStatus
  pub from : Option Time
  pub until : Option Time
  pub limit : ℤ
  pub offset : ℤ

-- The limits that `ListRuns` puts on a filter.
unfoldable pub bounded : RunFilter → RunFilter
bounded f = record f {
  suite_id = trim_space f.suite_id;
  schedule_id = trim_space f.schedule_id;
  limit =
      if leb_ℤ f.limit (pos 0)
      then pos 20
      else if ltb_ℤ (pos 100) f.limit
      then pos 100
      else f.limit;
  offset = if ltb_ℤ f.offset (pos 0) then pos 0 else f.offset;
}

unfoldable pub list_runs :
    {S : Type 0}
    → (RunFilter → S → Result (List TestRun × ℤ))
    → RunFilter
    → S
    → Result (List TestRun × ℤ)
list_runs list_filtered f s = list_filtered (bounded f) s

-- `run.Status() == model.RunStatusQueued || run.Status() == model.RunStatusRunning`.
abbrev pub in_flight : RunStatus → Bool
in_flight RunStatus.queued = true
in_flight RunStatus.running = true
in_flight _ = false

module _ {S : Type 0} (ports : Ports S) (service : RunService)
    (presign : Text → Duration → S → Result Text) where
  unfoldable pub get_run : Text → S → Result TestRun
  get_run id s = reject_if (is_blank id) validation >> ports.find_run (trim_space id) s

  -- The run, if it is no longer in flight.
  unfoldable pub settled_run : Text → S → Result TestRun
  unfolding get_run
  settled_run id s =
      get_run id s >>= (λ run. reject_if (in_flight run.status) run_in_flight >> ok run)

  -- The summary that the database keeps.
  abbrev pub summary_or_none : TestRun → Result Text
  summary_or_none run =
      if is_empty run.summary_json then err report_not_found else ok run.summary_json

  abbrev downloaded_or : Result Text → Option Text → Result Text
  downloaded_or fallback none = fallback
  downloaded_or fallback (some content) = ok content

  unfoldable pub get_run_report : Text → S → Result Text
  get_run_report id s = settled_run id s >>= (λ run.
      if service.has_storage && not (is_blank run.s3_report_key)
      then downloaded_or (summary_or_none run) (ports.download run.s3_report_key s)
      else summary_or_none run)

  unfoldable pub get_run_report_url : Text → Duration → S → Result Text
  get_run_report_url id lifetime s = settled_run id s >>= (λ run.
      reject_if (is_blank run.s3_report_key || not service.has_storage) report_not_found
      >> presign run.s3_report_key lifetime s)

  unfoldable pub get_run_logs : Text → S → Result Text
  get_run_logs id s = settled_run id s >>= (λ run.
      reject_if (is_blank run.s3_logs_key || not service.has_storage) logs_not_found
      >> downloaded_or (err logs_not_found) (ports.download run.s3_logs_key s))

  unfoldable pub get_run_logs_url : Text → Duration → S → Result Text
  get_run_logs_url id lifetime s = settled_run id s >>= (λ run.
      reject_if (is_blank run.s3_logs_key || not service.has_storage) logs_not_found
      >> presign run.s3_logs_key lifetime s)

  settled_of :
      (id : Text) (s : S) (run : TestRun)
      → is_blank id ≡ false
      → ports.find_run (trim_space id) s ≡ ok run
      → in_flight run.status ≡ false
      → settled_run id s ≡ ok run
  unfolding settled_run
  settled_of id s run hi found settled = rw (settled_run, hi, found, settled) refl

  summary_kept :
      (run : TestRun) (o : Option Text)
      → is_empty run.summary_json ≡ false
      → is_ok (downloaded_or (summary_or_none run) o) ≡ true
  summary_kept run none h = rw h refl
  summary_kept run (some c) h = refl

  -- The report of a finished run that has a summary in the database can always be read, whatever the
  -- bucket holds.
  pub finished_report_readable :
      (id : Text) (s : S) (run : TestRun)
      → is_blank id ≡ false
      → ports.find_run (trim_space id) s ≡ ok run
      → in_flight run.status ≡ false
      → is_empty run.summary_json ≡ false
      → is_ok (get_run_report id s) ≡ true
  unfolding get_run_report
  finished_report_readable id s run hi found settled kept =
      rw (get_run_report, settled_of id s run hi found settled)
        (elim (Bool-cases (service.has_storage && not (is_blank run.s3_report_key))) [
          | inl e ↦ rw e (summary_kept run (ports.download run.s3_report_key s) kept)
          | inr e ↦ rw e (summary_kept run none kept)
        ])
