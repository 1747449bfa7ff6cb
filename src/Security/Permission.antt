-- ===== src/Security/Permission.antt =====
-- `Permission` (nanograph-core/src/object/security/permission.rs).
use nanograph.Prelude.{◌≡◌, ◌↔◌, ◌⊎◌, refl, arith, Bool, true, false, if◌then◌else◌}

pub data Permission : Type 0 where
  cluster_alter cluster_view metrics_view user_management config_alter config_view : Permission
  tablespace_management tablespace_assign tablespace_view tablespace_list : Permission
  tenant_create tenant_delete tenant_alter tenant_view tenant_list : Permission
  database_access database_create database_delete database_alter : Permission
  database_view database_list : Permission
  namespace_create namespace_alter namespace_delete namespace_view namespace_list : Permission
  table_create table_delete table_alter : Permission
  table_data_query table_data_insert table_data_update table_data_delete : Permission
  table_index_create table_index_delete : Permission
  function_execute function_create function_delete function_alter : Permission
  grant_permission revoke_permission tenant_superuser global_superuser : Permission

pub Permission-discrete : Discrete Permission
Permission-discrete = hlevel

-- `self == other`
pub equal : Permission → Permission → Bool
equal p q = elim (Permission-discrete p q) [ yes e ↦ true | no n ↦ false ]

pub equal_iff : (p q : Permission) → (equal p q ≡ true) ↔ (p ≡ q)
unfolding equal
equal_iff p q =
    elim (Permission-discrete p q)
      as (λ d. (elim d [ yes e ↦ true | no n ↦ false ] ≡ true) ↔ (p ≡ q)) [
        | yes e ↦ (λ h. e, λ h. refl)
        | no n ↦ (λ h. cc, λ h. absurd (n h))
      ]

unfoldable pub implies : Permission → Permission → Bool
implies p other = if equal p global_superuser then true else equal p other

-- The global superuser's permission implies every permission; any other implies itself alone.
pub implies_iff : (p q : Permission) → (implies p q ≡ true) ↔ ((p ≡ global_superuser) ⊎ (p ≡ q))
unfolding implies
implies_iff p q =
    let super = equal_iff p global_superuser in
    let this = equal_iff p q in (λ h. ground (arith, super, this), λ h. ground (arith, super, this))
