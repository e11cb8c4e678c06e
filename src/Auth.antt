-- ===== src/Auth.antt =====
-- internal/domain/model/auth.go: the claims of a caller and the roles that they grant.
mod Granting
mod Tests
use vuhive_cloud.Common.{
  ◌≡◌, Bool, true, false, ◌||◌, List, [], ◌∷◌, Text, codes, trim_space, text_eq, ◌==◌,
  if◌then◌else◌,
}
use vuhive_cloud.Common.Int.{ℤ, pos, negsuc}
use vuhive_cloud.Common.Time.{Time, after}

abbrev pub role_admin : Text
role_admin = codes "vuhive-admin"

abbrev pub role_deployer : Text
role_deployer = codes "vuhive-deployer"

abbrev pub role_developer : Text
role_developer = codes "vuhive-developer"

abbrev pub role_viewer : Text
role_viewer = codes "vuhive-viewer"

abbrev pub group_administrators : Text
group_administrators = codes "/administrators"

abbrev pub group_deployers : Text
group_deployers = codes "/deployers"

abbrev pub group_developers : Text
group_developers = codes "/developers"

abbrev pub group_viewers : Text
group_viewers = codes "/viewers"

pub record Claims : Type 0 where
  pub subject : Text
  pub username : Text
  pub email : Text
  pub roles : List Text
  pub groups : List Text
  pub expires_at : Time

unfoldable pub new_claims : Text → Text → Text → List Text → List Text → Time → Claims
new_claims subject_claim name mail role_list group_list expiry = record {
  subject = trim_space subject_claim;
  username = trim_space name;
  email = trim_space mail;
  roles = role_list;
  groups = group_list;
  expires_at = expiry;
}

-- `time.Time{}`.
abbrev is_zero_time : Time → Bool
is_zero_time (pos n) = false
is_zero_time (negsuc n) = n == 62135596799999999999

unfoldable pub is_expired : Claims → Time → Bool
is_expired c now = if is_zero_time c.expires_at then false else after now c.expires_at

-- The loop over roles or groups: one of them, trimmed, is the target.
unfoldable pub has_trimmed : Text → List Text → Bool
has_trimmed target [] = false
has_trimmed target (t ∷ rest) = text_eq (trim_space t) target || has_trimmed target rest

unfoldable pub in_group : Claims → Text → Bool
in_group c group = has_trimmed (trim_space group) c.groups

unfoldable pub has_direct_role : Claims → Text → Bool
has_direct_role c role = has_trimmed (trim_space role) c.roles

-- The `switch` over the role that is asked for.
unfoldable pub granted_by_switch : Claims → Text → Bool
granted_by_switch c target =
    if text_eq target role_viewer
    then has_direct_role c role_deployer
      || (has_direct_role c role_developer
          || (has_direct_role c role_viewer
              || (in_group c group_deployers
                  || (in_group c group_developers || in_group c group_viewers))))
    else if text_eq target role_deployer
    then in_group c group_deployers
    else if text_eq target role_developer
    then in_group c group_developers
    else if text_eq target role_admin
    then in_group c group_administrators
    else false

unfoldable pub has_role : Claims → Text → Bool
has_role c role =
    if has_trimmed (trim_space role) c.roles
    then true
    else if in_group c group_administrators || has_direct_role c role_admin
    then true
    else granted_by_switch c (trim_space role)

unfoldable pub has_any_role : Claims → List Text → Bool
has_any_role c [] = false
has_any_role c (r ∷ rs) = if has_role c r then true else has_any_role c rs
