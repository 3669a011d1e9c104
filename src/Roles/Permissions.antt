-- ===== src/Roles/Permissions.antt =====
-- The permissions of several roles (stores/roles.ts).
use Prim.Native.Nat.{bit_or}
use united.Prelude.{ℕ, ◌%◌, ◌^◌, ◌≡◌, ◌∙◌, refl, sym, false, ◌||◌, List, [], ◌∷◌, any, arith}
use united.Prelude.Bits.{bit_and-zero, bit_and-bit_or, bit_or_below}
use united.Roles.Slice.{
  RoleResponse, admin, is_set, has_permission, unite, compute_effective_permissions,
}

is_set-bit_or :
    (a b f : ℕ) → is_set (bit_or (a % 2 ^ 32) (b % 2 ^ 32)) f ≡ (is_set a f || is_set b f)
unfolding is_set
is_set-bit_or a b f =
    let small : bit_or (a % 2 ^ 32) (b % 2 ^ 32) % 2 ^ 32 ≡ bit_or (a % 2 ^ 32) (b % 2 ^ 32) =
      omega (arith, bit_or_below 32 (a % 2 ^ 32) (b % 2 ^ 32) (omega arith) (omega arith)) in
    rw small (bit_and-bit_or (a % 2 ^ 32) (b % 2 ^ 32) (f % 2 ^ 32))

is_set-unite :
    (acc f : ℕ) (roles : List RoleResponse)
    → is_set (unite acc roles) f
      ≡ (is_set acc f || any (λ (r : RoleResponse). is_set r.permissions f) roles)
unfolding unite
is_set-unite acc f [] = ground arith
is_set-unite acc f (role ∷ roles) = ground (
  arith,
  is_set-unite (bit_or (acc % 2 ^ 32) (role.permissions % 2 ^ 32)) f roles,
  is_set-bit_or acc role.permissions f,
)

is_set-zero : (f : ℕ) → is_set 0 f ≡ false
unfolding is_set
is_set-zero f = ground (arith, bit_and-zero (f % 2 ^ 32))

any-has_permission :
    (f : ℕ) (roles : List RoleResponse)
    → any (λ (r : RoleResponse). has_permission r.permissions f) roles ≡ (
        any (λ (r : RoleResponse). is_set r.permissions admin) roles
        || any (λ (r : RoleResponse). is_set r.permissions f) roles)
unfolding has_permission
any-has_permission f [] = refl
any-has_permission f (role ∷ roles) = ground (arith, any-has_permission f roles)

-- The effective permissions of some roles grant a permission, alone or several at once, exactly if one
-- of the roles grants it, and exactly if one of them has one of its flags or one has the flag of
-- administration, which so grants all.
pub has_permission-compute_effective_permissions :
    (flag : ℕ) (roles : List RoleResponse)
    → (has_permission (compute_effective_permissions roles) flag
        ≡ any (λ (r : RoleResponse). has_permission r.permissions flag) roles)
      × (has_permission (compute_effective_permissions roles) flag ≡ (
          any (λ (r : RoleResponse). is_set r.permissions admin) roles
          || any (λ (r : RoleResponse). is_set r.permissions flag) roles))
unfolding compute_effective_permissions has_permission
has_permission-compute_effective_permissions flag roles =
    let united : has_permission (compute_effective_permissions roles) flag ≡ (
        any (λ (r : RoleResponse). is_set r.permissions admin) roles
        || any (λ (r : RoleResponse). is_set r.permissions flag) roles) =
      ground (
        arith,
        is_set-unite 0 admin roles,
        is_set-unite 0 flag roles,
        is_set-zero admin,
        is_set-zero flag,
      ) in
    (united ∙ sym (any-has_permission flag roles), united)
