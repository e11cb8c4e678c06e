-- ===== src/RunService/Calls.antt =====
-- internal/application/service/run_service.go: sequences of calls of the use cases.
use vuhive_cloud.Common.{◌≡◌, false, List, [], ◌∷◌, Text, trim_space, text_eq, Result}
use vuhive_cloud.Common.Time.{Time}
use vuhive_cloud.RunService.{Ports, RunService, ParsedReport, TriggerRunCommand, CompleteRunCommand}
use vuhive_cloud.RunService.Operations.{
  trigger_run, abort_run, cleanup_run, complete_run, delete_run,
}

-- A call of a use case that changes runs.
pub data Operation : Type 0 where
  triggers : Text → Time → Time → TriggerRunCommand → Operation
  aborts : Time → Text → Text → Operation
  cleans : Time → Text → Operation
  completes : Time → CompleteRunCommand → Operation
  deletes : Text → Operation

-- The operation neither creates a run under the identifier nor deletes that run.
abbrev pub Spares : Text → Operation → Type 0
Spares j (triggers uuid now later cmd) = text_eq uuid j ≡ false
Spares j (deletes id) = text_eq (trim_space id) j ≡ false
Spares j _ = Unit

module _ {S : Type 0} (ports : Ports S) (service : RunService)
    (parse : Text → Result ParsedReport) where
  unfoldable pub perform : Operation → S → S
  perform (triggers uuid now later cmd) s = (trigger_run ports service uuid now later cmd s).0
  perform (aborts now id reason) s = (abort_run ports service now id reason s).0
  perform (cleans now id) s = (cleanup_run ports service now id s).0
  perform (completes now cmd) s = (complete_run ports service parse now cmd s).0
  perform (deletes id) s = (delete_run ports service id s).0

  unfoldable pub perform_all : List Operation → S → S
  perform_all [] s = s
  perform_all (o ∷ os) s = perform_all os (perform o s)
