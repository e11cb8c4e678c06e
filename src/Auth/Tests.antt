-- ===== src/Auth/Tests.antt =====
-- internal/domain/model/auth.go: a member of the deployers' group.
use vuhive_cloud.Common.{
  ◌≡◌, ◌↔◌, refl, true, false, [], ◌∷◌, codes, trim_space, trim_left, trim_right, is_space,
}
use vuhive_cloud.Common.Int.{pos}
use vuhive_cloud.Auth.{
  Claims, has_role, has_any_role, has_trimmed, in_group, has_direct_role, granted_by_switch,
  role_viewer, role_developer,
}
use vuhive_cloud.Auth.Granting.{Granted, has_role_lem}

abbrev deployer : Claims
deployer = record {
  subject = codes "u1";
  username = codes "dora";
  email = [];
  roles = [];
  groups = codes " /deployers" ∷ [];
  expires_at = pos 10;
}

views_only :
    (has_role deployer role_viewer ≡ true) × (has_any_role deployer (role_developer ∷ []) ≡ false)
unfolding has_role has_any_role has_trimmed in_group has_direct_role granted_by_switch trim_space
    trim_left trim_right is_space
views_only = (refl, refl)

has_role_lem_example :
    (has_role deployer role_viewer ≡ true) ↔ Granted deployer (trim_space role_viewer)
has_role_lem_example = has_role_lem deployer role_viewer
