-- ===== src/Configuration/Service.antt =====
-- internal/application/service/config_service.go over its ports. Logging is left out; a pointer to a port
-- that may be nil is a flag of the service. `uuid` is what `uuid.NewString` returns.
use vuhive_cloud.Common.{
  Bool, not, ◌||◌, ◌&&◌, Option, none, some, List, [], ◌++◌, Text, codes, trim_space, is_blank,
  is_empty, text_eq, if◌then◌else◌, Error, Result, ok, err, reject_if, ◌>>◌, ◌>>=◌, validation,
  empty_name, not_found,
}
use vuhive_cloud.Common.Time.{Time}
use vuhive_cloud.Suite.{TestSuite}
use vuhive_cloud.Configuration.{
  Configuration, new_configuration_with_id, set_default, update_content, update_details,
}

pub record CreateConfigCommand : Type 0 where
  pub suite_id : Text
  pub name : Text
  pub description : Text
  pub content_yaml : Text
  pub is_default : Bool

pub record UpdateConfigCommand : Type 0 where
  pub suite_id : Text
  pub config_id : Text
  pub name : Text
  pub description : Text
  pub content_yaml : Text
  pub is_default : Option Bool

-- Which of the ports are there.
pub record ConfigService : Type 0 where
  pub has_suites : Bool
  pub has_configurations : Bool
  pub has_storage : Bool

pub record Ports (S : Type 0) : Type 0 where
  pub find_suite : Text → S → Result TestSuite
  pub find_configuration : Text → S → Result Configuration
  pub list_by_suite_id : Text → S → Result (List Configuration)
  pub save_configuration : Configuration → S → S × Option Error
  pub delete_configuration : Text → S → S × Option Error
  pub upload : Text → Text → S → S × Option Error
  pub delete_object : Text → S → S × Option Error

unfoldable pub config_object_key : Text → Text → Text
config_object_key suite id =
    codes "suites/" ++ (suite ++ (codes "/configs/" ++ (id ++ codes ".yaml")))

unfoldable pub created : Text → Time → CreateConfigCommand → Result Configuration
created uuid now cmd =
    let suite = trim_space cmd.suite_id in
    new_configuration_with_id uuid suite (trim_space cmd.name) cmd.description cmd.content_yaml
      (config_object_key suite uuid) cmd.is_default now

abbrev pub answer : Configuration → Option Error → Result Configuration
answer c none = ok c
answer c (some e) = err e

module _ {S : Type 0} (ports : Ports S) (service : ConfigService) where
  unfoldable pub suite_known : Text → S → Result (Unit {0})
  suite_known id s =
      if service.has_suites then (ports.find_suite id s >>= (λ suite. ok tt)) else ok tt

  unfoldable pub create_checks : CreateConfigCommand → S → Result (Unit {0})
  create_checks cmd s =
      reject_if (is_blank cmd.suite_id) validation
      >> (suite_known (trim_space cmd.suite_id) s
          >> (reject_if (is_blank cmd.name) empty_name
              >> reject_if (is_blank cmd.content_yaml) validation))

  abbrev pub upload_if : Bool → Text → Text → S → S × Option Error
  upload_if there key yaml s = if there then ports.upload key yaml s else (s, none)

  abbrev pub save_if : Configuration → S → S × Option Error
  save_if c s = if service.has_configurations then ports.save_configuration c s else (s, none)

  -- The end of `CreateConfig`, from the new entity on.
  unfoldable pub register : Result Configuration → S → S × Result Configuration
  register (err e) s = (s, err e)
  register (ok c) s = let (s1, e) = save_if c s in (s1, answer c e)

  unfoldable pub create_config : Text → Time → CreateConfigCommand → S → S × Result Configuration
  create_config uuid now cmd s = elim (create_checks cmd s) [
    | err e ↦ (s, err e)
    | ok done ↦
        (let (s1, failed) =
            upload_if service.has_storage (config_object_key (trim_space cmd.suite_id) uuid)
              cmd.content_yaml s in
          elim failed [ some e ↦ (s1, err e) | none ↦ register (created uuid now cmd) s1 ])
  ]

  -- The configuration with an identifier, if it belongs to a suite.
  unfoldable pub owned_config : Text → Text → S → Result Configuration
  owned_config suite id s =
      reject_if (not service.has_configurations) not_found
      >> (ports.find_configuration id s
          >>= (λ c. reject_if (not (text_eq c.suite_id suite)) not_found >> ok c))

  unfoldable pub get_config : Text → Text → S → Result Configuration
  get_config suite id s =
      reject_if (is_blank suite || is_blank id) validation
      >> owned_config (trim_space suite) (trim_space id) s

  unfoldable pub list_configs : Text → S → Result (List Configuration)
  list_configs suite s =
      reject_if (is_blank suite) validation
      >> (suite_known (trim_space suite) s
          >> (if service.has_configurations
              then ports.list_by_suite_id (trim_space suite) s
              else ok []))

  -- The error of the deletion of the object is only logged.
  abbrev pub drop_object : Configuration → S → S
  drop_object c s =
      if service.has_storage && not (is_empty c.s3_config_key)
      then (ports.delete_object c.s3_config_key s).0
      else s

  -- `DeleteConfig` finds the configuration by the steps of `GetConfig`.
  unfoldable pub delete_config : Text → Text → S → S × Option Error
  unfolding get_config
  delete_config suite id s = elim (get_config suite id s) [
    | err e ↦ (s, some e)
    | ok c ↦ ports.delete_configuration (trim_space id) (drop_object c s)
  ]

  -- The steps of `UpdateConfig` before the upload.
  unfoldable pub revise_config : UpdateConfigCommand → S → Result Configuration
  revise_config cmd s = do
    reject_if (is_blank cmd.suite_id || is_blank cmd.config_id) validation
    suite_known (trim_space cmd.suite_id) s
    c ← owned_config (trim_space cmd.suite_id) (trim_space cmd.config_id) s
    reject_if (is_blank cmd.name) empty_name
    d ← update_details (trim_space cmd.name) cmd.description c
    reject_if (is_blank cmd.content_yaml) validation
    ok d

  abbrev pub with_default : Option Bool → Configuration → Configuration
  with_default none c = c
  with_default (some flag) c = set_default flag c

  unfoldable pub save_update : Option Bool → Result Configuration → S → S × Result Configuration
  save_update flag (err e) s = (s, err e)
  save_update flag (ok c) s =
      let d = with_default flag c in let (s1, e) = ports.save_configuration d s in (s1, answer d e)

  unfoldable pub update_config : UpdateConfigCommand → S → S × Result Configuration
  update_config cmd s = elim (revise_config cmd s) [
    | err e ↦ (s, err e)
    | ok d ↦
        (let (s1, failed) =
            upload_if (service.has_storage && not (is_empty d.s3_config_key)) d.s3_config_key
              cmd.content_yaml s in
          elim failed [
            | some e ↦ (s1, err e)
            | none ↦
                save_update cmd.is_default (update_content cmd.content_yaml d.s3_config_key d) s1
          ])
  ]
