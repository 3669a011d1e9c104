-- ===== src/Roles/Slice.antt =====
-- client/src/renderer/src/stores/roles.ts: permission flags, and the slice of roles and members. The
-- answers of the server are arguments: `none` is a request that fails. An action that waits for the
-- server and then fetches is split where it waits. The operators `&` and `|` see numbers modulo 2^32.
use Prim.Native.Nat.{bit_and, bit_or}
use united.Prelude.{
  ℕ, ◌%◌, ◌^◌, ltb, String, str_eq, Bool, true, false, not, List, [], ◌∷◌, ◌++◌, map, keep, Option,
  none, some, if◌then◌else◌,
}

abbrev pub send_messages : ℕ
send_messages = 1

abbrev pub manage_channels : ℕ
manage_channels = 2

abbrev pub kick_members : ℕ
kick_members = 4

abbrev pub ban_members : ℕ
ban_members = 8

abbrev pub admin : ℕ
admin = 16

pub record RoleResponse : Type 0 where
  pub id : String
  pub name : String
  pub permissions : ℕ
  pub color : Option String
  pub is_default : Bool

pub record MemberResponse : Type 0 where
  pub id : String
  pub display_name : String
  pub is_owner : Bool
  pub pubkey : String
  pub role_ids : List String

-- `(permissions & flag) !== 0`
unfoldable pub is_set : ℕ → ℕ → Bool
is_set permissions flag = ltb 0 (bit_and (permissions % 2 ^ 32) (flag % 2 ^ 32))

unfoldable pub has_permission : ℕ → ℕ → Bool
has_permission permissions flag = if is_set permissions admin then true else is_set permissions flag

-- The loop of `reduce`, from an accumulator.
unfoldable pub unite : ℕ → List RoleResponse → ℕ
unite acc [] = acc
unite acc (role ∷ roles) = unite (bit_or (acc % 2 ^ 32) (role.permissions % 2 ^ 32)) roles

unfoldable pub compute_effective_permissions : List RoleResponse → ℕ
compute_effective_permissions roles = unite 0 roles

pub record RolesSlice : Type 0 where
  pub roles : List RoleResponse
  pub roles_loading : Bool
  pub members : List MemberResponse
  pub members_loading : Bool

unfoldable pub create_roles_slice : RolesSlice
create_roles_slice = record {
  roles = [];
  roles_loading = false;
  members = [];
  members_loading = false;
}

unfoldable pub fetch_members_start : RolesSlice → RolesSlice
fetch_members_start s = record s { members_loading = true }

unfoldable pub fetch_members_done : Option (List MemberResponse) → RolesSlice → RolesSlice
fetch_members_done none s = record s { members_loading = false }
fetch_members_done (some members) s = record s { members = members; members_loading = false }

unfoldable pub fetch_roles_start : RolesSlice → RolesSlice
fetch_roles_start s = record s { roles_loading = true }

unfoldable pub fetch_roles_done : Option (List RoleResponse) → RolesSlice → RolesSlice
fetch_roles_done none s = record s { roles_loading = false }
fetch_roles_done (some roles) s = record s { roles = roles; roles_loading = false }

-- `createRole`, `updateRole` and `deleteRole`, once the server has answered.
unfoldable pub changed_role : Bool → RolesSlice → RolesSlice
changed_role ok s = if ok then fetch_roles_start s else s

-- `assignRole` and `removeRole`, once the server has answered.
unfoldable pub changed_members : Bool → RolesSlice → RolesSlice
changed_members ok s = if ok then fetch_members_start s else s

-- The event by its type, with the fields that its type is read for.
pub data RoleEvent : Type 0 where
  created : Option RoleResponse → RoleEvent
  updated : Option RoleResponse → RoleEvent
  deleted : Option String → RoleEvent
  assigned : RoleEvent
  removed : RoleEvent

unfoldable pub handle_role_event : RoleEvent → RolesSlice → RolesSlice
handle_role_event (created none) s = s
handle_role_event (created (some role)) s = record s { roles = s.roles ++ role ∷ [] }
handle_role_event (updated none) s = s
handle_role_event (updated (some role)) s = record s {
  roles = map (λ (r : RoleResponse). if str_eq r.id role.id then role else r) s.roles;
}
handle_role_event (deleted none) s = s
handle_role_event (deleted (some role_id)) s =
    if str_eq role_id ""
    then s
    else record s { roles = keep (λ (r : RoleResponse). not (str_eq r.id role_id)) s.roles }
handle_role_event assigned s = s
handle_role_event removed s = s
