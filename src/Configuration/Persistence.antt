-- ===== src/Configuration/Persistence.antt =====
-- internal/domain/model/configuration.go: a configuration and its row.
use vuhive_cloud.Common.{
  ◌≡◌, Bool, false, List, [], ◌∷◌, Text, trim_space, trim_space_idem, is_blank, trimmed_ink, Result,
  ok, err, arith,
}
use vuhive_cloud.Common.Time.{Time}
use vuhive_cloud.Configuration.{
  Configuration, new_configuration, new_configuration_with_id, set_default, update_content,
  set_name, set_description, update_details,
}

-- What every configuration of the program is like: its texts are trimmed, and those that must not be
-- blank are not.
pub record IsStored (c : Configuration) : Type 0 where
  pub suite_ink : is_blank c.suite_id ≡ false
  pub name_ink : is_blank c.name ≡ false
  pub yaml_ink : is_blank c.content_yaml ≡ false
  pub key_ink : is_blank c.s3_config_key ≡ false
  pub suite_trimmed : trim_space c.suite_id ≡ c.suite_id
  pub name_trimmed : trim_space c.name ≡ c.name
  pub about_trimmed : trim_space c.description ≡ c.description
  pub key_trimmed : trim_space c.s3_config_key ≡ c.s3_config_key

-- A call of a method.
pub data Call : Type 0 where
  defaults : Bool → Call
  contents : Text → Text → Call
  names : Text → Call
  describes : Text → Call
  details : Text → Text → Call

abbrev pub kept_or : Configuration → Result Configuration → Configuration
kept_or c (ok d) = d
kept_or c (err e) = c

unfoldable pub step : Call → Configuration → Configuration
step (defaults flag) c = set_default flag c
step (contents yaml key) c = kept_or c (update_content yaml key c)
step (names title) c = kept_or c (set_name title c)
step (describes about) c = set_description about c
step (details title about) c = kept_or c (update_details title about c)

unfoldable pub run : List Call → Configuration → Configuration
run [] c = c
run (call ∷ rest) c = run rest (step call c)

step-IsStored : (call : Call) (c : Configuration) → IsStored c → IsStored (step call c)
unfolding step update_content set_name update_details set_default set_description
step-IsStored (defaults flag) c s = grind arith
step-IsStored (contents yaml key) c s = grind (arith, trim_space_idem, trimmed_ink)
step-IsStored (names title) c s = grind (arith, trim_space_idem, trimmed_ink)
step-IsStored (describes about) c s = grind (arith, trim_space_idem, trimmed_ink)
step-IsStored (details title about) c s = grind (arith, trim_space_idem, trimmed_ink)

run-IsStored : (calls : List Call) (c : Configuration) → IsStored c → IsStored (run calls c)
unfolding run
run-IsStored [] c s = s
run-IsStored (call ∷ rest) c s = run-IsStored rest (step call c) (step-IsStored call c s)

created_configuration-IsStored :
    (uuid : Text) (now : Time) (suite title about yaml key : Text) (flag : Bool) (c : Configuration)
    → new_configuration uuid now suite title about yaml key flag ≡ ok c
    → IsStored c
unfolding new_configuration
created_configuration-IsStored uuid now suite title about yaml key flag c h =
    grind (arith, trim_space_idem, trimmed_ink)

pub loaded_configuration-IsStored :
    (given suite title about yaml key : Text) (flag : Bool) (created : Time) (c : Configuration)
    → new_configuration_with_id given suite title about yaml key flag created ≡ ok c
    → IsStored c
unfolding new_configuration_with_id
loaded_configuration-IsStored given suite title about yaml key flag created c h =
    grind (arith, trim_space_idem, trimmed_ink)

pub reload_stored :
    (c : Configuration)
    → IsStored c
    → new_configuration_with_id c.id c.suite_id c.name c.description c.content_yaml c.s3_config_key
        c.is_default c.created_at
      ≡ ok c
unfolding new_configuration_with_id
reload_stored c s =
    rw (s.suite_ink, s.yaml_ink, s.name_ink, s.key_ink)
      λ i. ok (record c {
        suite_id = s.suite_trimmed i;
        name = s.name_trimmed i;
        description = s.about_trimmed i;
        s3_config_key = s.key_trimmed i;
      })

-- A configuration that was created and then changed by any calls is loaded from its columns as it was.
pub reload_configuration :
    (uuid : Text) (now : Time) (suite title about yaml key : Text) (flag : Bool) (c : Configuration)
    (calls : List Call)
    → new_configuration uuid now suite title about yaml key flag ≡ ok c
    → new_configuration_with_id
        (run calls c).id
        (run calls c).suite_id
        (run calls c).name
        (run calls c).description
        (run calls c).content_yaml
        (run calls c).s3_config_key
        (run calls c).is_default
        (run calls c).created_at
      ≡ ok (run calls c)
reload_configuration uuid now suite title about yaml key flag c calls h =
    reload_stored (run calls c) (
      run-IsStored calls c
        (created_configuration-IsStored uuid now suite title about yaml key flag c h))
