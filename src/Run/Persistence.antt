-- ===== src/Run/Persistence.antt =====
-- internal/domain/model/run.go: a run that is written to the database and read back.
use vuhive_cloud.Common.{
  ◌≡◌, refl, ap, ◌⊎◌, inl, inr, true, false, Option, List, [], ◌∷◌, Text, trim_space,
  trim_space_idem, is_blank, ok, err, arith, Bool-cases, is_ok, ◌↔◌, validation,
}
use vuhive_cloud.Common.Time.{Time}
use vuhive_cloud.Run.{
  TestRun, chosen_namespace, namespace_or_default, default_runner_namespace, new_test_run,
  new_test_run_with_id, step, run, Call,
}
use vuhive_cloud.Run.Invariant.{IsConsistent, created_run-IsConsistent}

-- A namespace as the constructors and the setter leave it.
pub record IsNormal (r : TestRun) : Type 0 where
  pub normal : namespace_or_default r.k8s_namespace ≡ r.k8s_namespace

default_normal : namespace_or_default default_runner_namespace ≡ default_runner_namespace
unfolding trim_space
default_normal = refl

namespace_or_default_idem :
    (s : Text) → namespace_or_default (namespace_or_default s) ≡ namespace_or_default s
namespace_or_default_idem s = elim (Bool-cases (is_blank s)) [
  | inl e ↦ rw e default_normal
  | inr e ↦ rw e (rw (trim_space_idem s) (rw e))
]

step-IsNormal : (c : Call) (r : TestRun) → IsNormal r → IsNormal (step c r).0
unfolding step
step-IsNormal (Call.sets_namespace namespace) r v = record {
  normal = namespace_or_default_idem namespace;
}
step-IsNormal _ r v = ground arith

run-IsNormal : (cs : List Call) (r : TestRun) → IsNormal r → IsNormal (run cs r)
unfolding run
run-IsNormal [] r v = v
run-IsNormal (c ∷ cs) r v = run-IsNormal cs (step c r).0 (step-IsNormal c r v)

chosen_normal :
    (namespaces : List Text)
    → namespace_or_default (chosen_namespace namespaces) ≡ chosen_namespace namespaces
chosen_normal [] = default_normal
chosen_normal (s ∷ rest) = namespace_or_default_idem s

new_test_run-IsNormal :
    (uuid : Text) (now : Time) (suite artifact : Text) (configuration : Option Text)
    (profile : Text) (schedule : Option Text) (namespaces : List Text) (r : TestRun)
    → new_test_run uuid now suite artifact configuration profile schedule namespaces ≡ ok r
    → IsNormal r
unfolding new_test_run
new_test_run-IsNormal uuid now suite artifact configuration profile schedule namespaces r h =
    ground (arith, chosen_normal namespaces)

reload_of_IsNormal : (r : TestRun) → IsConsistent r → IsNormal r → new_test_run_with_id r ≡ ok r
unfolding new_test_run_with_id
reload_of_IsNormal r v n = rw v.known (ap ok (rw n.normal))

-- A run that `NewTestRun` made, after any sequence of method calls, is rebuilt by
-- `NewTestRunWithID` from its own fields without a change.
pub reload_run :
    (uuid : Text) (now : Time) (suite artifact : Text) (configuration : Option Text)
    (profile : Text) (schedule : Option Text) (namespaces : List Text) (r : TestRun)
    (cs : List Call)
    → new_test_run uuid now suite artifact configuration profile schedule namespaces ≡ ok r
    → new_test_run_with_id (run cs r) ≡ ok (run cs r)
reload_run uuid now suite artifact configuration profile schedule namespaces r cs h =
    reload_of_IsNormal (run cs r)
      (created_run-IsConsistent uuid now suite artifact configuration profile schedule namespaces r
        cs h)
      (run-IsNormal cs r (
        new_test_run-IsNormal uuid now suite artifact configuration profile schedule namespaces r
          h))

-- `NewTestRun` succeeds just when suite, artifact and profile are all not blank, and returns a
-- validation error just when one of them is.
pub new_test_run_checks :
    (uuid : Text) (now : Time) (suite artifact : Text) (configuration : Option Text)
    (profile : Text) (schedule : Option Text) (namespaces : List Text)
    → let result = new_test_run uuid now suite artifact configuration profile schedule namespaces in
      ((is_ok result ≡ true)
        ↔ ((is_blank suite ≡ false) × (is_blank artifact ≡ false) × (is_blank profile ≡ false)))
      × ((result ≡ err validation)
          ↔ ((is_blank suite ≡ true) ⊎ (is_blank artifact ≡ true) ⊎ (is_blank profile ≡ true)))
unfolding new_test_run
new_test_run_checks uuid now suite artifact configuration profile schedule namespaces =
    (ground arith, ground arith)
