-- ===== src/Configuration.antt =====
-- internal/domain/model/configuration.go: the configurations of a test suite. A method that may fail
-- leaves its receiver as it is with its error.
mod Persistence
mod Uploading
mod Tests
pub mod Service
use vuhive_cloud.Common.{
  Bool, ◌||◌, Text, trim_space, is_blank, Result, ok, reject_if, ◌>>◌, validation, empty_name,
  empty_s3_key,
}
use vuhive_cloud.Common.Time.{Time}

pub record Configuration : Type 0 where
  pub id : Text
  pub suite_id : Text
  pub name : Text
  pub description : Text
  pub content_yaml : Text
  pub s3_config_key : Text
  pub is_default : Bool
  pub created_at : Time

unfoldable pub new_configuration_with_id :
    Text → Text → Text → Text → Text → Text → Bool → Time → Result Configuration
new_configuration_with_id given suite title about yaml key default created =
    reject_if (is_blank suite || is_blank yaml) validation
    >> (reject_if (is_blank title) empty_name
        >> (reject_if (is_blank key) empty_s3_key
            >> ok (record {
              id = given;
              suite_id = trim_space suite;
              name = trim_space title;
              description = trim_space about;
              content_yaml = yaml;
              s3_config_key = trim_space key;
              is_default = default;
              created_at = created;
            })))

-- `uuid` is what `uuid.NewString` returns.
unfoldable pub new_configuration :
    Text → Time → Text → Text → Text → Text → Text → Bool → Result Configuration
new_configuration uuid now suite title about yaml key default =
    reject_if (is_blank suite || is_blank yaml) validation
    >> (reject_if (is_blank title) empty_name
        >> (reject_if (is_blank key) empty_s3_key
            >> ok (record {
              id = uuid;
              suite_id = trim_space suite;
              name = trim_space title;
              description = trim_space about;
              content_yaml = yaml;
              s3_config_key = trim_space key;
              is_default = default;
              created_at = now;
            })))

unfoldable pub set_default : Bool → Configuration → Configuration
set_default flag c = record c { is_default = flag }

unfoldable pub update_content : Text → Text → Configuration → Result Configuration
update_content yaml key c =
    reject_if (is_blank yaml) validation
    >> (reject_if (is_blank key) empty_s3_key
        >> ok (record c { content_yaml = yaml; s3_config_key = trim_space key }))

unfoldable pub set_name : Text → Configuration → Result Configuration
set_name title c =
    reject_if (is_blank title) empty_name >> ok (record c { name = trim_space title })

unfoldable pub set_description : Text → Configuration → Configuration
set_description about c = record c { description = trim_space about }

unfoldable pub update_details : Text → Text → Configuration → Result Configuration
update_details title about c =
    reject_if (is_blank title) empty_name
    >> ok (record c { name = trim_space title; description = trim_space about })
