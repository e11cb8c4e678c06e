-- ===== src/Suite/Lifecycle.antt =====
-- internal/domain/model/suite.go: the lifecycle of a suite, and its round trip through persistence.
use vuhive_cloud.Common.{
  ◌≡◌, refl, true, false, none, List, [], ◌∷◌, Text, trim_space, is_blank, if◌then◌else◌,
  trim_space_idem, trimmed_ink, ok, arith,
}
use vuhive_cloud.Common.Time.{Time}
use vuhive_cloud.Suite.{
  TestSuiteState, TestSuite, is_valid, is_in, new_test_suite, new_test_suite_with_id,
  transition_state, Call, step, run, set_retention_policy,
}

-- TransitionState to a known state succeeds from every state, ends in that state, and changes nothing
-- else but the time of the last update, which it leaves where the suite is in the target state already.
pub transition_state_lem :
    (now : Time) (target : TestSuiteState) (s : TestSuite)
    → is_valid target ≡ true
    → transition_state now target s ≡ (
      record s { state = target; updated_at = if is_in target s then s.updated_at else now },
      none,
    )
unfolding transition_state
transition_state_lem now target s h = ground arith

-- What a created suite keeps.
pub record IsNamed (s : TestSuite) : Type 0 where
  pub known : is_valid s.state ≡ true
  pub name_ink : is_blank s.name ≡ false
  pub name_trimmed : trim_space s.name ≡ s.name

step-IsNamed : (c : Call) (s : TestSuite) → IsNamed s → IsNamed (step c s).0
unfolding step
step-IsNamed c s v = grind (arith, trim_space_idem, trimmed_ink)

run-IsNamed : (cs : List Call) (s : TestSuite) → IsNamed s → IsNamed (run cs s)
unfolding run
run-IsNamed [] s v = v
run-IsNamed (c ∷ cs) s v = run-IsNamed cs (step c s).0 (step-IsNamed c s v)

new_test_suite-IsNamed :
    (uuid : Text) (now : Time) (name description : Text) (s : TestSuite)
    → new_test_suite uuid now name description ≡ ok s
    → IsNamed s
unfolding new_test_suite
new_test_suite-IsNamed uuid now name description s h = grind (arith, trim_space_idem, trimmed_ink)

reload_of_IsNamed :
    (s : TestSuite)
    → IsNamed s
    → (t : TestSuite) × (new_test_suite_with_id s.id s.name s.description s.state s.created_at
          s.updated_at
        ≡ ok t)
      × (set_retention_policy s.retention_policy t ≡ s)
unfolding new_test_suite_with_id set_retention_policy
reload_of_IsNamed s v = (record s { retention_policy = none }, ground (arith, v), refl)

-- A suite that was created and then changed by any calls is loaded from its columns as it was: the
-- columns pass NewTestSuiteWithID, and with the retention policy set again the suite is the same.
pub reload_suite :
    (uuid : Text) (now : Time) (name description : Text) (s : TestSuite) (cs : List Call)
    → new_test_suite uuid now name description ≡ ok s
    → (t : TestSuite) × (new_test_suite_with_id
          (run cs s).id
          (run cs s).name
          (run cs s).description
          (run cs s).state
          (run cs s).created_at
          (run cs s).updated_at
        ≡ ok t)
      × (set_retention_policy (run cs s).retention_policy t ≡ run cs s)
reload_suite uuid now name description s cs h =
    reload_of_IsNamed (run cs s)
      (run-IsNamed cs s (new_test_suite-IsNamed uuid now name description s h))
