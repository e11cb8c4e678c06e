-- ===== src/Session.antt =====
-- internal/bff/domain/model/session.go: the client sessions of the web back end. A method that
-- mutates its receiver returns the new record; one that may fail leaves the receiver as it is with
-- its error. Where the source reads the clock twice there are two instants, `checked` for the
-- expiry test and `now` for the times that are stored.
pub mod Store
pub mod Service
pub mod Expiry
mod Sliding
mod Tests
mod Answers
mod Cleaning
mod Calls
use vuhive_cloud.Common.{
  ◌-◌, ◌≡◌, Bool, Option, none, some, List, [], ◌∷◌, Text, is_empty, if◌then◌else◌, Result, ok,
  reject_if, invalid_parameter, session_expired, ◌>>◌,
}
use vuhive_cloud.Common.Dict.{Dict}
use vuhive_cloud.Common.Int.{pos, negsuc, leb_ℤ, ◌+ℤ◌}
use vuhive_cloud.Common.Time.{Time, Duration, add, after, second}

pub record ClientSession : Type 0 where
  pub id : Text
  pub user_id : Text
  pub keycloak_sid : Text
  pub access_token : Text
  pub refresh_token : Text
  pub id_token : Text
  pub roles : List Text
  pub created_at : Time
  pub updated_at : Time
  pub expires_at : Time
  pub metadata : Dict Text

abbrev pub SessionOption : Type 0
SessionOption = ClientSession → ClientSession

abbrev pub with_keycloak_sid : Text → SessionOption
with_keycloak_sid sid s = record s { keycloak_sid = sid }

abbrev pub with_tokens : Text → Text → Text → SessionOption
with_tokens access refresh identity s = record s {
  access_token = access;
  refresh_token = refresh;
  id_token = identity;
}

-- A nil slice, or a nil map, is `none`.
abbrev pub with_roles : Option (List Text) → SessionOption
with_roles none s = s
with_roles (some rs) s = record s { roles = rs }

abbrev pub with_metadata : Option (Dict Text) → SessionOption
with_metadata none s = s
with_metadata (some m) s = record s { metadata = m }

unfoldable pub apply_options : List SessionOption → ClientSession → ClientSession
apply_options [] s = s
apply_options (opt ∷ opts) s = apply_options opts (opt s)

-- `ttl <= 0`.
abbrev pub not_positive : Duration → Bool
not_positive ttl = leb_ℤ ttl (pos 0)

abbrev pub blank_session : Text → Text → Duration → Time → ClientSession
blank_session session_id user ttl now = record {
  id = session_id;
  user_id = user;
  keycloak_sid = [];
  access_token = [];
  refresh_token = [];
  id_token = [];
  roles = [];
  created_at = now;
  updated_at = now;
  expires_at = add now ttl;
  metadata = [];
}

unfoldable pub new_client_session :
    Text → Text → Duration → List SessionOption → Time → Result ClientSession
new_client_session session_id user ttl opts now =
    reject_if (is_empty session_id) invalid_parameter
    >> (reject_if (is_empty user) invalid_parameter
        >> (reject_if (not_positive ttl) invalid_parameter
            >> ok (apply_options opts (blank_session session_id user ttl now))))

abbrev pub is_expired : ClientSession → Time → Bool
is_expired s now = after now s.expires_at

unfoldable pub rotate_tokens :
    Text → Text → Text → Duration → Time → Time → ClientSession → Result ClientSession
rotate_tokens access refresh identity ttl checked now s =
    reject_if (is_expired s checked) session_expired
    >> (reject_if (is_empty access) invalid_parameter
        >> (reject_if (is_empty refresh) invalid_parameter
            >> (reject_if (not_positive ttl) invalid_parameter
                >> ok (record s {
                  access_token = access;
                  refresh_token = refresh;
                  id_token = if is_empty identity then s.id_token else identity;
                  updated_at = now;
                  expires_at = add now ttl;
                }))))

unfoldable pub touch : Duration → Time → Time → ClientSession → Result ClientSession
touch ttl checked now s =
    reject_if (is_expired s checked) session_expired
    >> (reject_if (not_positive ttl) invalid_parameter
        >> ok (record s { updated_at = now; expires_at = add now ttl }))

unfoldable pub revoke : Time → ClientSession → ClientSession
revoke now s = record s { updated_at = now; expires_at = add now (negsuc (second - 1)) }
