-- ===== src/Configuration/Tests.antt =====
-- internal/application/service/config_service.go: a database and a bucket as two association lists.
use vuhive_cloud.Common.{
  ◌≡◌, refl, true, none, some, Option, [], ◌∷◌, Text, codes, trim_space, trim_left, trim_right,
  is_space, Result, ok, err, not_found, text_eq_refl,
}
use vuhive_cloud.Common.Int.{pos}
use vuhive_cloud.Common.Dict.{Dict, lookup, insert, delete, lookup-insert}
use vuhive_cloud.RunService.Memory.{suite}
use vuhive_cloud.Configuration.{
  Configuration, new_configuration_with_id, update_details, update_content,
}
use vuhive_cloud.Configuration.Persistence.{reload_stored}
use vuhive_cloud.Configuration.Service.{
  Ports, ConfigService, CreateConfigCommand, UpdateConfigCommand, config_object_key, create_config,
  create_checks, suite_known, created, register, get_config, owned_config, update_config,
  revise_config, save_update, delete_config,
}
use vuhive_cloud.Configuration.Uploading.{IsLawful, created_config_readable}

abbrev World : Type 0
World = Dict Configuration × Dict Text

-- A row is read back through the constructor for rows.
abbrev read_row : Option Configuration → Result Configuration
read_row none = err not_found
read_row (some c) =
    new_configuration_with_id c.id c.suite_id c.name c.description c.content_yaml c.s3_config_key
      c.is_default c.created_at

abbrev memory : Ports World
memory = record {
  find_suite = λ id s. ok suite;
  find_configuration = λ id s. read_row (lookup id s.0);
  list_by_suite_id = λ id s. ok [];
  save_configuration = λ c s. ((insert c.id c s.0, s.1), none);
  delete_configuration = λ id s. ((delete id s.0, s.1), none);
  upload = λ k t s. ((s.0, insert k t s.1), none);
  delete_object = λ k s. ((s.0, delete k s.1), none);
}

abbrev objects : World → Text → Option Text
objects s k = lookup k s.1

memory-IsLawful : IsLawful memory objects
memory-IsLawful = record {
  saved_found = λ c s stored h.
      rw (lookup-insert c.id c.id c s.0, text_eq_refl c.id) (reload_stored c stored);
  saved_objects = λ c s k. refl;
  uploaded = λ k t s h. rw (lookup-insert k k t s.1, text_eq_refl k) refl;
}

abbrev all_ports : ConfigService
all_ports = record { has_suites = true; has_configurations = true; has_storage = true }

abbrev smoke : CreateConfigCommand
smoke = record {
  suite_id = codes " s1";
  name = codes "smoke ";
  description = codes "";
  content_yaml = codes "vus: 3\n";
  is_default = true;
}

abbrev made : Configuration
made = record {
  id = codes "c1";
  suite_id = codes "s1";
  name = codes "smoke";
  description = [];
  content_yaml = codes "vus: 3\n";
  s3_config_key = codes "suites/s1/configs/c1.yaml";
  is_default = true;
  created_at = pos 7;
}

creates : (create_config memory all_ports (codes "c1") (pos 7) smoke ([], [])).1 ≡ ok made
unfolding create_config create_checks suite_known created register config_object_key
    new_configuration_with_id insert trim_space trim_left trim_right is_space
creates = refl

kept_uuid : trim_space (codes "c1") ≡ codes "c1"
unfolding trim_space trim_left trim_right is_space
kept_uuid = refl

created_config_readable_example :
    (get_config memory all_ports
        (codes " s1")
        (codes "c1")
        (create_config memory all_ports (codes "c1") (pos 7) smoke ([], [])).0
      ≡ ok made)
    × (objects
          (create_config memory all_ports (codes "c1") (pos 7) smoke ([], [])).0
          (codes "suites/s1/configs/c1.yaml")
        ≡ some (codes "vus: 3\n"))
unfolding trim_space trim_left trim_right is_space
created_config_readable_example =
    created_config_readable memory all_ports memory-IsLawful (codes "c1") (pos 7) smoke ([], [])
      made refl refl refl kept_uuid creates

-- The calls of an update and of a deletion.
abbrev louder : UpdateConfigCommand
louder = record {
  suite_id = codes "s1";
  config_id = codes "c1";
  name = codes "loud";
  description = codes " more ";
  content_yaml = codes "vus: 9";
  is_default = none;
}

abbrev held : World
held = ((codes "c1", made) ∷ [], [])

updates : update_config memory all_ports louder held ≡ (
  (
    (
      codes "c1",
      record made {
        name = codes "loud";
        description = codes "more";
        content_yaml = codes "vus: 9";
      },
    )
        ∷ [],
    (codes "suites/s1/configs/c1.yaml", codes "vus: 9") ∷ [],
  ),
  ok (record made {
    name = codes "loud";
    description = codes "more";
    content_yaml = codes "vus: 9";
  }),
)
unfolding update_config revise_config save_update suite_known owned_config update_details
    update_content new_configuration_with_id lookup insert trim_space trim_left trim_right is_space
updates = refl

foreign_kept :
    delete_config memory all_ports (codes "s2") (codes "c1") held ≡ (held, some not_found)
unfolding delete_config get_config owned_config new_configuration_with_id lookup trim_space
    trim_left trim_right is_space
foreign_kept = refl
