-- ===== src/Suite/Archiving.antt =====
-- internal/application/service/suite_service.go: archiving a suite.
use vuhive_cloud.Common.{
  ◌≡◌, false, some, Text, trim_space, is_blank, ok, err, ◌>>=◌, invalid_state_transition, inl, inr,
  Bool-cases,
}
use vuhive_cloud.Common.Time.{Time}
use vuhive_cloud.Suite.{TestSuite, archived, is_archived, transition_state, archive, update_details}
use vuhive_cloud.Suite.Service.{
  UpdateSuiteCommand, Ports, accepted, into_state, save_answer, get_suite, revise_suite,
  update_suite, archive_suite,
}

refuses_archived :
    (moved edited : Time) (title about : Text) (x : TestSuite)
    → (into_state moved (some archived) x >>= (λ y. accepted (update_details edited title about y)))
      ≡ err invalid_state_transition
unfolding transition_state update_details archive
refuses_archived moved edited title about x = elim (Bool-cases (is_archived x.state)) [
  | inl e ↦ simp e
  | inr e ↦ simp e
]

module _ {S : Type 0} (ports : Ports S) where
  -- `UpdateSuite` cannot archive: for an identifier that is not blank and a suite that is found and not
  -- archived, a command whose state is ARCHIVED is answered with ErrInvalidStateTransition and saves
  -- nothing, while `ArchiveSuite` saves the suite with the state ARCHIVED.
  pub update_cannot_archive :
      (moved edited : Time) (id : Text) (cmd : UpdateSuiteCommand) (s : S) (x : TestSuite)
      → is_blank id ≡ false
      → ports.find_suite (trim_space id) s ≡ ok x
      → is_archived x.state ≡ false
      → cmd.state ≡ some archived
      → (update_suite ports moved edited id cmd s ≡ (s, err invalid_state_transition))
        × ((archive_suite ports moved id s).0
            ≡ (ports.save_suite (record x { state = archived; updated_at = moved }) s).0)
  unfolding update_suite revise_suite archive_suite get_suite save_answer archive
  update_cannot_archive moved edited id cmd s x ink found fresh asked = (
    simp (
      update_suite,
      revise_suite,
      get_suite,
      ink,
      found,
      asked,
      refuses_archived moved edited cmd.name cmd.description x,
    ),
    simp (archive_suite, get_suite, ink, found, fresh),
  )
