-- ===== src/Suite/Tests.antt =====
-- internal/domain/model/suite.go and internal/application/service/suite_service.go on a concrete
-- suite.
use vuhive_cloud.Common.{
  ◌≡◌, refl, none, some, List, [], ◌∷◌, codes, trim_space, ok, empty_name, invalid_state_transition,
  Option, Result, err, not_found,
}
use vuhive_cloud.Common.Int.{pos}
use vuhive_cloud.Common.Dict.{Dict, lookup, insert, delete}
use vuhive_cloud.Suite.Service.{
  Ports, UpdateSuiteCommand, update_suite, revise_suite, save_answer, get_suite, archive_suite,
}
use vuhive_cloud.Suite.Archiving.{update_cannot_archive}
use vuhive_cloud.Suite.{archived, active, activate, transition_state, update_details}
use vuhive_cloud.Suite.{TestSuite, draft, new_test_suite, step, Call, activates, updates, archives}

abbrev fresh : TestSuite
fresh = record {
  id = codes "s1";
  name = codes "checkout";
  description = codes "nightly";
  state = draft;
  retention_policy = none;
  created_at = pos 10;
  updated_at = pos 10;
}

created-fresh :
    new_test_suite (codes "s1") (pos 10) (codes " checkout ") (codes "nightly ") ≡ ok fresh
unfolding new_test_suite trim_space
created-fresh = refl

abbrev life : List Call
life = activates (pos 20) ∷ updates (pos 30) (codes " orders") (codes "x") ∷ []

no_name : (step (updates (pos 20) (codes " ") []) fresh).1 ≡ some empty_name
unfolding step trim_space
no_name = refl

archived_fixed :
    (step (updates (pos 20) (codes "x") []) (step (archives (pos 15)) fresh).0).1
    ≡ some invalid_state_transition
unfolding step trim_space
archived_fixed = refl

abbrev found_in : Option TestSuite → Result TestSuite
found_in none = err not_found
found_in (some x) = ok x

-- The database as an association list.
abbrev memory : Ports (Dict TestSuite)
memory = record {
  find_suite = λ id s. found_in (lookup id s);
  list_all = λ s. ok [];
  save_suite = λ x s. (insert x.id x s, none);
  delete_suite_row = λ id s. (delete id s, none);
}

abbrev held : Dict TestSuite
held = (codes "s1", fresh) ∷ []

finds_fresh : memory.find_suite (trim_space (codes "s1 ")) held ≡ ok fresh
unfolding lookup trim_space
finds_fresh = refl

abbrev to_archive : UpdateSuiteCommand
to_archive = record {
  name = codes "checkout";
  description = codes "nightly";
  state = some archived;
}

update_cannot_archive_example :
    (update_suite memory (pos 20) (pos 21) (codes "s1 ") to_archive held
      ≡ (held, err invalid_state_transition))
    × ((archive_suite memory (pos 20) (codes "s1 ") held).0
        ≡ (memory.save_suite (record fresh { state = archived; updated_at = pos 20 }) held).0)
unfolding trim_space
update_cannot_archive_example =
    update_cannot_archive memory (pos 20) (pos 21) (codes "s1 ") to_archive held fresh refl
      finds_fresh refl refl

renames :
    (update_suite memory
      (pos 20)
      (pos 21)
      (codes "s1")
      (record { name = codes " cart"; description = []; state = some active })
      held).1
    ≡ ok (record fresh {
      name = codes "cart";
      description = [];
      state = active;
      updated_at = pos 21;
    })
unfolding update_suite revise_suite save_answer get_suite transition_state activate update_details
    lookup insert trim_space
renames = refl
