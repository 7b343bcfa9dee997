-- ===== src/Roles.antt =====
-- The roles of apps/backend/src/types/userRole.ts, legacy ones included.
use logestic.Prelude.{ℕ, Bool, true, false, ◌==◌}

pub data UserRole : Type 0 where
  admin operation_admin coop_admin coop_operator operator consultant driver fleet_owner household
        coop employer :
      UserRole

abbrev role_ordinal : UserRole → ℕ
role_ordinal admin = 0
role_ordinal operation_admin = 1
role_ordinal coop_admin = 2
role_ordinal coop_operator = 3
role_ordinal operator = 4
role_ordinal consultant = 5
role_ordinal driver = 6
role_ordinal fleet_owner = 7
role_ordinal household = 8
role_ordinal coop = 9
role_ordinal employer = 10

-- `===` on roles.
abbrev pub role_eq : UserRole → UserRole → Bool
role_eq a b = role_ordinal a == role_ordinal b

-- Legacy COOP is COOP_ADMIN; every other role stays, also the legacy EMPLOYER.
abbrev pub normalize_role : UserRole → UserRole
normalize_role coop = coop_admin
normalize_role role = role

abbrev pub is_operation_admin : UserRole → Bool
is_operation_admin operation_admin = true
is_operation_admin _ = false

pub is_coop_scoped_role : UserRole → Bool
is_coop_scoped_role coop = true
is_coop_scoped_role coop_admin = true
is_coop_scoped_role coop_operator = true
is_coop_scoped_role _ = false
