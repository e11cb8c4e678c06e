-- ===== src/Suite/Service.antt =====
-- internal/application/service/suite_service.go over its repository. Logging is left out; `uuid` is what
-- `uuid.NewString` returns.
use vuhive_cloud.Common.{
  not, Option, none, some, List, Text, trim_space, is_blank, if◌then◌else◌, Error, Result, ok, err,
  reject_if, ◌>>◌, ◌>>=◌, validation, invalid_state_transition,
}
use vuhive_cloud.Common.Time.{Time}
use vuhive_cloud.Suite.{
  TestSuiteState, TestSuite, is_valid, new_test_suite, transition_state, archive, update_details,
}

pub record UpdateSuiteCommand : Type 0 where
  pub name : Text
  pub description : Text
  pub state : Option TestSuiteState

pub record Ports (S : Type 0) : Type 0 where
  pub find_suite : Text → S → Result TestSuite
  pub list_all : S → Result (List TestSuite)
  pub save_suite : TestSuite → S → S × Option Error
  pub delete_suite_row : Text → S → S × Option Error

-- A method's receiver, unless there was an error.
abbrev pub accepted : TestSuite × Option Error → Result TestSuite
accepted (x, none) = ok x
accepted (x, some e) = err e

abbrev pub into_state : Time → Option TestSuiteState → TestSuite → Result TestSuite
into_state now none x = ok x
into_state now (some target) x =
    reject_if (not (is_valid target)) invalid_state_transition
    >> accepted (transition_state now target x)

module _ {S : Type 0} (ports : Ports S) where
  unfoldable pub save_answer : Result TestSuite → S → S × Result TestSuite
  save_answer (err e) s = (s, err e)
  save_answer (ok x) s = let (s1, e) = ports.save_suite x s in (s1, accepted (x, e))

  unfoldable pub create_suite : Text → Time → Text → Text → S → S × Result TestSuite
  unfolding save_answer
  create_suite uuid now title about s =
      save_answer (new_test_suite uuid now (trim_space title) (trim_space about)) s

  unfoldable pub get_suite : Text → S → Result TestSuite
  get_suite id s = reject_if (is_blank id) validation >> ports.find_suite (trim_space id) s

  unfoldable pub list_suites : S → Result (List TestSuite)
  list_suites s = ports.list_all s

  -- The steps of `UpdateSuite` before the save; `now` is read by each of the two changes.
  unfoldable pub revise_suite : Time → Time → Text → UpdateSuiteCommand → S → Result TestSuite
  unfolding get_suite
  revise_suite moved edited id cmd s = get_suite id s >>= (λ x.
      into_state moved cmd.state x
      >>= (λ y. accepted (update_details edited cmd.name cmd.description y)))

  unfoldable pub update_suite : Time → Time → Text → UpdateSuiteCommand → S → S × Result TestSuite
  unfolding revise_suite save_answer
  update_suite moved edited id cmd s = save_answer (revise_suite moved edited id cmd s) s

  unfoldable pub delete_suite : Text → S → S × Option Error
  delete_suite id s =
      if is_blank id then (s, some validation) else ports.delete_suite_row (trim_space id) s

  abbrev pub failure : Result TestSuite → Option Error
  failure (ok x) = none
  failure (err e) = some e

  unfoldable pub archive_suite : Time → Text → S → S × Option Error
  unfolding get_suite save_answer
  archive_suite now id s =
      let (s1, r) = save_answer (get_suite id s >>= (λ x. accepted (archive now x))) s in
      (s1, failure r)
