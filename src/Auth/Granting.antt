-- ===== src/Auth/Granting.antt =====
-- internal/domain/model/auth.go: the roles as a lattice.
use vuhive_cloud.Common.{
  ◌≡◌, ◌↔◌, sym, ap, ◌∙◌, Bool, true, false, ◌||◌, ◌&&◌, List, Text, trim_space, trim_left,
  trim_right, is_space, text_eq, text_eq→≡, if◌then◌else◌, arith, Bool-cases, inl, inr, subst,
}
use vuhive_cloud.Auth.{
  Claims, has_trimmed, in_group, has_direct_role, granted_by_switch, has_role, role_admin,
  role_deployer, role_developer, role_viewer, group_administrators, group_deployers,
  group_developers, group_viewers,
}

-- The role that a group stands for.
pub data StandsFor : Text → Text → Type 0 where
  administrators : StandsFor group_administrators role_admin
  deployers : StandsFor group_deployers role_deployer
  developers : StandsFor group_developers role_developer
  viewers : StandsFor group_viewers role_viewer

-- The roles that claims grant: their own and those of their groups; deployers and developers are
-- viewers, and administrators have every role.
pub data Granted (c : Claims) : Text → Type 0 where
  own : (role : Text) → has_trimmed role c.roles ≡ true → Granted c role
  by_group :
      (group role : Text)
      → StandsFor group role
      → has_trimmed group c.groups ≡ true
      → Granted c role
  deployer_views : Granted c role_deployer → Granted c role_viewer
  developer_views : Granted c role_developer → Granted c role_viewer
  admin_all : (role : Text) → Granted c role_admin → Granted c role

-- What `HasRole` tests, on the lists.
abbrev tests : Claims → Text → Bool
tests c target =
    has_trimmed target c.roles
    || (has_trimmed group_administrators c.groups
        || (has_trimmed role_admin c.roles
            || ((text_eq target role_viewer
                  && (has_trimmed role_deployer c.roles
                      || (has_trimmed role_developer c.roles
                          || (has_trimmed group_deployers c.groups
                              || (has_trimmed group_developers c.groups
                                  || has_trimmed group_viewers c.groups)))))
                || ((text_eq target role_deployer && has_trimmed group_deployers c.groups)
                    || (text_eq target role_developer && has_trimmed group_developers c.groups)))))

same_switch :
    (mine ga ra v d e a rd re rv gd ge gv : Bool)
    → (v ≡ true → rv ≡ mine)
    → (d ≡ true → e ≡ false)
    → (if mine
        then true
        else if ga || ra
        then true
        else if v
        then rd || (re || (rv || (gd || (ge || gv))))
        else if d
        then gd
        else if e
        then ge
        else if a
        then ga
        else false)
      ≡ (mine
          || (ga
              || (ra || ((v && (rd || (re || (gd || (ge || gv))))) || ((d && gd) || (e && ge))))))
same_switch mine ga ra v d e a rd re rv gd ge gv h k = ground arith

viewer_own :
    (target : Text) (roles : List Text)
    → text_eq target role_viewer ≡ true
    → has_trimmed role_viewer roles ≡ has_trimmed target roles
viewer_own target roles e = ap (λ z. has_trimmed z roles) (sym (text_eq→≡ target role_viewer e))

not_both :
    (target : Text) → text_eq target role_deployer ≡ true → text_eq target role_developer ≡ false
not_both target e = ap (λ z. text_eq z role_developer) (text_eq→≡ target role_deployer e)

has_role-tests : (c : Claims) (role : Text) → has_role c role ≡ tests c (trim_space role)
unfolding has_role granted_by_switch in_group has_direct_role trim_space trim_left trim_right
    is_space
has_role-tests c role =
    let target = trim_space role in
    same_switch (has_trimmed target c.roles) (has_trimmed group_administrators c.groups)
      (has_trimmed role_admin c.roles) (text_eq target role_viewer) (text_eq target role_deployer)
      (text_eq target role_developer) (text_eq target role_admin)
      (has_trimmed role_deployer c.roles) (has_trimmed role_developer c.roles)
      (has_trimmed role_viewer c.roles) (has_trimmed group_deployers c.groups)
      (has_trimmed group_developers c.groups) (has_trimmed group_viewers c.groups)
      (viewer_own target c.roles) (not_both target)

stands :
    (c : Claims) (group role : Text)
    → StandsFor group role
    → has_trimmed group c.groups ≡ true
    → tests c role ≡ true
stands c group role administrators e = ground arith
stands c group role deployers e = ground arith
stands c group role developers e = ground arith
stands c group role viewers e = ground arith

tested : (c : Claims) (role : Text) → Granted c role → tests c role ≡ true
tested c role (own r e) = ground arith
tested c role (by_group g r s e) = stands c g r s e
tested c role (deployer_views g) = let below = tested c role_deployer g in ground arith
tested c role (developer_views g) = let below = tested c role_developer g in ground arith
tested c role (admin_all r g) = let above = tested c role_admin g in ground arith

Granted-viewer :
    (c : Claims)
    → (has_trimmed role_deployer c.roles
        || (has_trimmed role_developer c.roles
            || (has_trimmed group_deployers c.groups
                || (has_trimmed group_developers c.groups || has_trimmed group_viewers c.groups))))
      ≡ true
    → Granted c role_viewer
Granted-viewer c h = elim (Bool-cases (has_trimmed role_deployer c.roles)) [
  | inl e ↦ deployer_views (own role_deployer e)
  | inr n1 ↦ elim (Bool-cases (has_trimmed role_developer c.roles)) [
    | inl e ↦ developer_views (own role_developer e)
    | inr n2 ↦ elim (Bool-cases (has_trimmed group_deployers c.groups)) [
      | inl e ↦ deployer_views (by_group group_deployers role_deployer deployers e)
      | inr n3 ↦ elim (Bool-cases (has_trimmed group_developers c.groups)) [
        | inl e ↦ developer_views (by_group group_developers role_developer developers e)
        | inr n4 ↦ by_group group_viewers role_viewer viewers (ground arith)
      ]
    ]
  ]
]

granted : (c : Claims) (role : Text) → tests c role ≡ true → Granted c role
granted c role h = elim (Bool-cases (has_trimmed role c.roles)) [
  | inl e ↦ own role e
  | inr n1 ↦ elim (Bool-cases (has_trimmed group_administrators c.groups)) [
    | inl e ↦ admin_all role (by_group group_administrators role_admin administrators e)
    | inr n2 ↦ elim (Bool-cases (has_trimmed role_admin c.roles)) [
      | inl e ↦ admin_all role (own role_admin e)
      | inr n3 ↦ elim (Bool-cases (text_eq role role_viewer)) [
        | inl v ↦
            subst (Granted c) (sym (text_eq→≡ role role_viewer v)) (Granted-viewer c (ground arith))
        | inr n4 ↦ elim (Bool-cases (text_eq role role_deployer)) [
          | inl d ↦ subst (Granted c) (sym (text_eq→≡ role role_deployer d)) (
              by_group group_deployers role_deployer deployers
                (let apart = not_both role d in ground arith))
          | inr n5 ↦
              subst (Granted c) (sym (text_eq→≡ role role_developer (ground arith)))
                (by_group group_developers role_developer developers (ground arith))
        ]
      ]
    ]
  ]
]

-- `HasRole` grants just the roles that follow from the claims: their own, those of their groups, to
-- deployers and developers that of a viewer, and to administrators every role. The role that is asked
-- for, and those and the groups of the claims, count without the white space around them.
pub has_role_lem :
    (c : Claims) (role : Text) → (has_role c role ≡ true) ↔ Granted c (trim_space role)
has_role_lem c role = (
  λ h. granted c (trim_space role) (sym (has_role-tests c role) ∙ h),
  λ g. has_role-tests c role ∙ tested c (trim_space role) g,
)
