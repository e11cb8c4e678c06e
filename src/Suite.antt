-- ===== src/Suite.antt =====
-- internal/domain/model/suite.go: the TestSuite aggregate, with `time.Now().UTC()` and
-- `uuid.NewString()` as arguments.
pub mod Service
mod Archiving
mod Lifecycle
mod Tests
use vuhive_cloud.Common.{
  ◌≡◌, Bool, true, false, not, Option, none, some, List, [], ◌∷◌, Text, trim_space, is_blank,
  if◌then◌else◌, Error, empty_name, invalid_state_transition, Result, ok, err, reject_if, ◌>>=◌,
  ◌>>◌,
}
use vuhive_cloud.Common.Time.{Time}
use vuhive_cloud.Retention.{RetentionPolicy}

-- `type TestSuiteState string`: the three constants, and any other text.
pub data TestSuiteState : Type 0 where
  draft active archived : TestSuiteState
  unrecognized : Text → TestSuiteState

abbrev pub is_valid : TestSuiteState → Bool
is_valid (unrecognized s) = false
is_valid _ = true

abbrev pub is_draft : TestSuiteState → Bool
is_draft draft = true
is_draft _ = false

abbrev pub is_active : TestSuiteState → Bool
is_active active = true
is_active _ = false

abbrev pub is_archived : TestSuiteState → Bool
is_archived archived = true
is_archived _ = false

pub record TestSuite : Type 0 where
  pub id : Text
  pub name : Text
  pub description : Text
  pub state : TestSuiteState
  pub retention_policy : Option RetentionPolicy
  pub created_at : Time
  pub updated_at : Time

unfoldable pub new_test_suite : Text → Time → Text → Text → Result TestSuite
new_test_suite uuid now name description = do
  reject_if (is_blank name) empty_name
  ok (record {
    id = uuid;
    name = trim_space name;
    description = trim_space description;
    state = draft;
    retention_policy = none;
    created_at = now;
    updated_at = now;
  })

unfoldable pub new_test_suite_with_id :
    Text → Text → Text → TestSuiteState → Time → Time → Result TestSuite
new_test_suite_with_id id name description state created_at updated_at = do
  reject_if (is_blank name) empty_name
  reject_if (not (is_valid state)) invalid_state_transition
  ok (record {
    id = id;
    name = trim_space name;
    description = description;
    state = state;
    retention_policy = none;
    created_at = created_at;
    updated_at = updated_at;
  })

unfoldable pub set_retention_policy : Option RetentionPolicy → TestSuite → TestSuite
set_retention_policy p s = record s { retention_policy = p }

unfoldable pub activate : Time → TestSuite → TestSuite × Option Error
activate now s =
    if is_active s.state
    then (s, some invalid_state_transition)
    else (record s { state = active; updated_at = now }, none)

unfoldable pub archive : Time → TestSuite → TestSuite × Option Error
archive now s =
    if is_archived s.state
    then (s, some invalid_state_transition)
    else (record s { state = archived; updated_at = now }, none)

unfoldable pub set_draft : Time → TestSuite → TestSuite × Option Error
set_draft now s =
    if is_draft s.state
    then (s, some invalid_state_transition)
    else (record s { state = draft; updated_at = now }, none)

-- `s.state == target`, for a target that is one of the constants.
abbrev pub is_in : TestSuiteState → TestSuite → Bool
is_in draft s = is_draft s.state
is_in active s = is_active s.state
is_in archived s = is_archived s.state
is_in (unrecognized t) s = false

unfoldable pub transition_state : Time → TestSuiteState → TestSuite → TestSuite × Option Error
unfolding activate archive set_draft
transition_state now target s =
    if not (is_valid target)
    then (s, some invalid_state_transition)
    else if is_in target s
    then (s, none)
    else elim target [
      | draft ↦ set_draft now s
      | active ↦ activate now s
      | archived ↦ archive now s
      | unrecognized t ↦ (s, some invalid_state_transition)
    ]

unfoldable pub update_details : Time → Text → Text → TestSuite → TestSuite × Option Error
update_details now name description s =
    if is_archived s.state
    then (s, some invalid_state_transition)
    else if is_blank name
    then (s, some empty_name)
    else (
      record s { name = trim_space name; description = trim_space description; updated_at = now },
      none,
    )

-- A call of a method that changes the suite.
pub data Call : Type 0 where
  sets_policy : Option RetentionPolicy → Call
  activates archives drafts : Time → Call
  transitions : Time → TestSuiteState → Call
  updates : Time → Text → Text → Call

unfoldable pub step : Call → TestSuite → TestSuite × Option Error
unfolding set_retention_policy activate archive set_draft transition_state update_details
step (sets_policy p) s = (set_retention_policy p s, none)
step (activates now) s = activate now s
step (archives now) s = archive now s
step (drafts now) s = set_draft now s
step (transitions now target) s = transition_state now target s
step (updates now name description) s = update_details now name description s

unfoldable pub run : List Call → TestSuite → TestSuite
run [] s = s
run (c ∷ cs) s = run cs (step c s).0
