-- ===== src/Tests/Roles.antt =====
-- Runs of roles and permissions.
use united.Prelude.{ℕ, ◌≡◌, ◌||◌, any, false, none, [], ◌∷◌}
use united.Roles.Slice.{
  RoleResponse, kick_members, ban_members, admin, is_set, has_permission,
  compute_effective_permissions,
}
use united.Roles.Permissions.{has_permission-compute_effective_permissions}

abbrev role : ℕ → RoleResponse
role permissions = record {
  id = "r";
  name = "role";
  permissions = permissions;
  color = none;
  is_default = false;
}

has_permission-compute_effective_permissions_example :
    (has_permission (compute_effective_permissions (role 1 ∷ role kick_members ∷ [])) ban_members
      ≡ any
          (λ (r : RoleResponse). has_permission r.permissions ban_members)
          (role 1 ∷ role kick_members ∷ []))
    × (has_permission (compute_effective_permissions (role 1 ∷ role kick_members ∷ [])) ban_members
        ≡ (any (λ (r : RoleResponse). is_set r.permissions admin) (role 1 ∷ role kick_members ∷ [])
            || any
                (λ (r : RoleResponse). is_set r.permissions ban_members)
                (role 1 ∷ role kick_members ∷ [])))
has_permission-compute_effective_permissions_example =
    has_permission-compute_effective_permissions ban_members (role 1 ∷ role kick_members ∷ [])
