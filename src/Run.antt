-- ===== src/Run.antt =====
-- internal/domain/model/run.go: the TestRun aggregate. A method that mutates `*TestRun` returns the
-- new record with its error; the fields are read where the source has getters. A float64 is its
-- 64-bit pattern, since the metrics are only copied.
mod Invariant
mod Graph
mod Traces
mod Persistence
mod Tests
use vuhive_cloud.Common.{
  ℕ, ◌≡◌, Bool, true, false, ◌||◌, Option, none, some, List, [], ◌∷◌, Text, codes, trim_space,
  is_empty, is_blank, if◌then◌else◌, Error, Result, ok, err, reject_if, ◌>>=◌, ◌>>◌, validation,
  terminal_state, invalid_state_transition,
}
use vuhive_cloud.Common.Int.{ℤ, pos, ◌-ℤ◌}
use vuhive_cloud.Common.Time.{Time, sub, milliseconds}

-- `type RunStatus string`: the six constants, and any other text.
pub data RunStatus : Type 0 where
  queued running completed failed aborted archived : RunStatus
  unrecognized : Text → RunStatus

abbrev pub is_valid : RunStatus → Bool
is_valid queued = true
is_valid running = true
is_valid completed = true
is_valid failed = true
is_valid aborted = true
is_valid archived = true
is_valid (unrecognized s) = false

abbrev pub is_terminal : RunStatus → Bool
is_terminal completed = true
is_terminal failed = true
is_terminal aborted = true
is_terminal archived = true
is_terminal queued = false
is_terminal running = false
is_terminal (unrecognized s) = false

abbrev pub is_queued : RunStatus → Bool
is_queued queued = true
is_queued _ = false

abbrev pub is_running : RunStatus → Bool
is_running running = true
is_running _ = false

abbrev pub is_archived : RunStatus → Bool
is_archived archived = true
is_archived _ = false

abbrev pub Float64 : Type 0
Float64 = ℕ

pub record RunMetrics : Type 0 where
  pub total_iterations : ℤ
  pub total_requests : ℤ
  pub avg_tps : Float64
  pub p50_duration_ms : Float64
  pub p90_duration_ms : Float64
  pub p95_duration_ms : Float64
  pub p99_duration_ms : Float64
  pub error_rate_pct : Float64

abbrev pub no_metrics : RunMetrics
no_metrics = record {
  total_iterations = pos 0;
  total_requests = pos 0;
  avg_tps = 0;
  p50_duration_ms = 0;
  p90_duration_ms = 0;
  p95_duration_ms = 0;
  p99_duration_ms = 0;
  error_rate_pct = 0;
}

pub record TestRun : Type 0 where
  pub id : Text
  pub suite_id : Text
  pub artifact_id : Text
  pub configuration_id : Option Text
  pub runner_profile_id : Text
  pub schedule_id : Option Text
  pub status : RunStatus
  pub k8s_job_name : Text
  pub k8s_namespace : Text
  pub started_at : Option Time
  pub finished_at : Option Time
  pub exit_code : Option ℤ
  pub sla_passed : Option Bool
  pub metrics : RunMetrics
  pub s3_report_key : Text
  pub s3_logs_key : Text
  -- `[]byte`; nil is the empty list, which every reader of the field treats alike.
  pub summary_json : List ℕ
  pub abort_reason : Text
  pub created_at : Time

abbrev pub default_runner_namespace : Text
default_runner_namespace = codes "vuhive-runners"

-- A pointer to a text, dropped when the text is blank.
abbrev trim_optional : Option Text → Option Text
trim_optional none = none
trim_optional (some s) = if is_blank s then none else some (trim_space s)

-- The namespace that a setter keeps: the default for a blank one.
abbrev pub namespace_or_default : Text → Text
namespace_or_default s = if is_blank s then default_runner_namespace else trim_space s

-- The variadic `runnerNamespace ...string`.
abbrev chosen_namespace : List Text → Text
chosen_namespace [] = default_runner_namespace
chosen_namespace (s ∷ rest) = namespace_or_default s

-- `uuid.NewString()` and `time.Now().UTC()` are arguments.
unfoldable pub new_test_run :
    Text → Time → Text → Text → Option Text → Text → Option Text → List Text → Result TestRun
new_test_run uuid now suite artifact configuration profile schedule namespaces = do
  reject_if (is_blank suite || (is_blank artifact || is_blank profile)) validation
  ok (record {
    id = uuid;
    suite_id = trim_space suite;
    artifact_id = trim_space artifact;
    configuration_id = trim_optional configuration;
    runner_profile_id = trim_space profile;
    schedule_id = trim_optional schedule;
    status = queued;
    k8s_job_name = [];
    k8s_namespace = chosen_namespace namespaces;
    started_at = none;
    finished_at = none;
    exit_code = none;
    sla_passed = none;
    metrics = no_metrics;
    s3_report_key = [];
    s3_logs_key = [];
    summary_json = [];
    abort_reason = [];
    created_at = now;
  })

-- `NewTestRunWithID` takes the fields one by one: here they come as a record.
unfoldable pub new_test_run_with_id : TestRun → Result TestRun
new_test_run_with_id row =
    if is_valid row.status
    then ok (record row { k8s_namespace = namespace_or_default row.k8s_namespace })
    else err invalid_state_transition

-- `DurationMs`.
unfoldable pub duration_ms : Time → TestRun → Option ℤ
unfolding sub milliseconds ◌-ℤ◌
duration_ms now r = elim r.started_at [
  | none ↦ none
  | some start ↦
      let end : Time = elim r.finished_at [ none ↦ now | some finish ↦ finish ] in
      some (milliseconds (sub end start))
]

unfoldable pub set_k8s_job_name : Text → TestRun → TestRun
set_k8s_job_name name r = record r { k8s_job_name = trim_space name }

unfoldable pub set_k8s_namespace : Text → TestRun → TestRun
set_k8s_namespace namespace r = record r { k8s_namespace = namespace_or_default namespace }

unfoldable pub start : Text → Time → TestRun → TestRun × Option Error
start job_name start_time r =
    if is_terminal r.status
    then (r, some terminal_state)
    else if is_queued r.status
    then (
      record r {
        k8s_job_name = if is_blank job_name then r.k8s_job_name else trim_space job_name;
        started_at = some start_time;
        status = running;
      },
      none,
    )
    else (r, some invalid_state_transition)

unfoldable pub complete :
    RunMetrics → Text → Text → List ℕ → Bool → Time → TestRun → TestRun × Option Error
complete metrics report_key logs_key summary passed finish_time r =
    if is_terminal r.status
    then (r, some terminal_state)
    else if is_running r.status
    then (
      record r {
        exit_code = some (pos 0);
        sla_passed = some passed;
        metrics = metrics;
        s3_report_key = trim_space report_key;
        s3_logs_key = trim_space logs_key;
        summary_json = summary;
        finished_at = some finish_time;
        status = completed;
      },
      none,
    )
    else (r, some invalid_state_transition)

unfoldable pub set_exit_code : ℤ → TestRun → TestRun
set_exit_code code r = record r { exit_code = some code }

unfoldable pub fail : ℤ → Text → Time → TestRun → TestRun × Option Error
fail code logs_key finish_time r = if is_terminal r.status then (r, some terminal_state) else (
  record r {
    exit_code = some code;
    sla_passed = some false;
    s3_logs_key = trim_space logs_key;
    finished_at = some finish_time;
    status = failed;
  },
  none,
)

unfoldable pub fail_with_metrics :
    ℤ → RunMetrics → Text → Text → List ℕ → Time → TestRun → TestRun × Option Error
fail_with_metrics code metrics report_key logs_key summary finish_time r =
    if is_terminal r.status then (r, some terminal_state) else (
      record r {
        exit_code = some code;
        sla_passed = some false;
        metrics = metrics;
        s3_report_key = trim_space report_key;
        s3_logs_key = trim_space logs_key;
        summary_json = summary;
        finished_at = some finish_time;
        status = failed;
      },
      none,
    )

unfoldable pub abort : Text → Time → TestRun → TestRun × Option Error
abort reason abort_time r = if is_terminal r.status then (r, some terminal_state) else (
  record r { abort_reason = trim_space reason; finished_at = some abort_time; status = aborted },
  none,
)

-- The time is an argument that the source does not read.
unfoldable pub archive : Time → TestRun → TestRun × Option Error
archive archive_time r =
    if is_archived r.status
    then (r, some terminal_state)
    else if is_terminal r.status
    then (record r { summary_json = []; status = archived }, none)
    else (r, some invalid_state_transition)

unfoldable pub clear_s3_logs_key : TestRun → TestRun
clear_s3_logs_key r = record r { s3_logs_key = [] }

unfoldable pub clear_s3_report_key : TestRun → TestRun
clear_s3_report_key r = record r { s3_report_key = [] }

-- A call of a method that changes the run.
pub data Call : Type 0 where
  sets_job_name sets_namespace : Text → Call
  starts : Text → Time → Call
  completes : RunMetrics → Text → Text → List ℕ → Bool → Time → Call
  sets_exit_code : ℤ → Call
  fails : ℤ → Text → Time → Call
  fails_with_metrics : ℤ → RunMetrics → Text → Text → List ℕ → Time → Call
  aborts : Text → Time → Call
  archives : Time → Call
  clears_logs_key clears_report_key : Call

unfoldable pub step : Call → TestRun → TestRun × Option Error
unfolding set_k8s_job_name set_k8s_namespace start complete set_exit_code fail fail_with_metrics
    abort archive clear_s3_logs_key clear_s3_report_key
step (sets_job_name name) r = (set_k8s_job_name name r, none)
step (sets_namespace namespace) r = (set_k8s_namespace namespace r, none)
step (starts name time) r = start name time r
step (completes m report logs summary passed time) r = complete m report logs summary passed time r
step (sets_exit_code code) r = (set_exit_code code r, none)
step (fails code logs time) r = fail code logs time r
step (fails_with_metrics code m report logs summary time) r =
    fail_with_metrics code m report logs summary time r
step (aborts reason time) r = abort reason time r
step (archives time) r = archive time r
step clears_logs_key r = (clear_s3_logs_key r, none)
step clears_report_key r = (clear_s3_report_key r, none)

-- A caller that goes on after an error.
unfoldable pub run : List Call → TestRun → TestRun
run [] r = r
run (c ∷ cs) r = run cs (step c r).0
