-- ===== src/Security/Principal/Resolution.antt =====
-- Which grants count for a principal of nanograph-core/src/object/security/principal.rs: the
-- resolution against a description by the sources of a grant.
use nanograph.Prelude.{
  ℕ, ◌≡◌, ◌∙◌, ap, refl, none, some, List, [], ◌∷◌, ◌++◌, Bool, false, ◌||◌, arith, Bool-cases,
  Option-cases, inl, inr,
}
use nanograph.Security.Scope.{PermissionGrant}
use nanograph.Security.Principal.{
  Derived, RoleRecord, GroupRecord, SystemUserRecord, TenantUserRecord, find_role, find_group,
  role_grants, group_grants, insert_by_key, sort_by_key, dedup_from, dedup, resolve_system_grants,
  resolve_tenant_grants, from_system_user, from_tenant_user, from_hybrid_user, any,
}

module _ (p : PermissionGrant → Bool) where
  -- A listed role that exists has a grant that passes the test.
  unfoldable pub through_roles : List RoleRecord → List ℕ → Bool
  through_roles roles [] = false
  through_roles roles (id ∷ ids) =
      (elim (find_role roles id) [ none ↦ false | some r ↦ any p r.grants ])
      || through_roles roles ids

  -- A listed group that exists has such a grant, or a role of the group has.
  unfoldable pub through_groups : List GroupRecord → List RoleRecord → List ℕ → Bool
  through_groups groups roles [] = false
  through_groups groups roles (id ∷ ids) =
      (elim (find_group groups id) [
        | none ↦ false
        | some g ↦ any p g.grants || through_roles roles g.roles
      ])
      || through_groups groups roles ids

  any-append : (xs ys : List PermissionGrant) → any p (xs ++ ys) ≡ (any p xs || any p ys)
  unfolding any
  any-append [] ys = refl
  any-append (x ∷ xs) ys = ground (arith, any-append xs ys)

  any-insert_by_key :
      (D : Derived) (g : PermissionGrant) (xs : List PermissionGrant)
      → any p (insert_by_key D g xs) ≡ (p g || any p xs)
  unfolding any insert_by_key
  any-insert_by_key D g [] = refl
  any-insert_by_key D g (x ∷ xs) = ground (arith, any-insert_by_key D g xs)

  any-sort_by_key : (D : Derived) (xs : List PermissionGrant) → any p (sort_by_key D xs) ≡ any p xs
  unfolding any sort_by_key
  any-sort_by_key D [] = refl
  any-sort_by_key D (x ∷ xs) =
      ground (arith, any-insert_by_key D x (sort_by_key D xs), any-sort_by_key D xs)

  any-dedup_from :
      (D : Derived) (kept : PermissionGrant) (xs : List PermissionGrant)
      → (p kept || any p (dedup_from D kept xs)) ≡ (p kept || any p xs)
  unfolding any dedup_from
  any-dedup_from D kept [] = refl
  any-dedup_from D kept (x ∷ xs) = elim (Bool-cases (D.same x kept)) [
    | inl t ↦
        let e : p x ≡ p kept = ap p (D.eq_of_same x kept t) in
        ground (arith, t, e, any-dedup_from D kept xs)
    | inr t ↦ ground (arith, t, any-dedup_from D x xs)
  ]

  any-dedup : (D : Derived) (xs : List PermissionGrant) → any p (dedup D xs) ≡ any p xs
  unfolding any dedup
  any-dedup D [] = refl
  any-dedup D (x ∷ xs) = any-dedup_from D x xs

  any-role_grants :
      (roles : List RoleRecord) (ids : List ℕ)
      → any p (role_grants roles ids) ≡ through_roles roles ids
  unfolding any role_grants through_roles
  any-role_grants roles [] = refl
  any-role_grants roles (id ∷ ids) = elim (Option-cases (find_role roles id)) [
    | inl e ↦ rw (role_grants, e) (any-role_grants roles ids)
    | inr (r, e) ↦
        rw (role_grants, e, any-append r.grants (role_grants roles ids), any-role_grants roles ids)
  ]

  any-group_grants :
      (groups : List GroupRecord) (roles : List RoleRecord) (ids : List ℕ)
      → any p (group_grants groups roles ids) ≡ through_groups groups roles ids
  unfolding any group_grants through_groups
  any-group_grants groups roles [] = refl
  any-group_grants groups roles (id ∷ ids) = elim (Option-cases (find_group groups id)) [
    | inl e ↦ rw (group_grants, e) (any-group_grants groups roles ids)
    | inr (g, e) ↦ rw (
      group_grants,
      e,
      any-append (g.grants ++ role_grants roles g.roles) (group_grants groups roles ids),
      any-append g.grants (role_grants roles g.roles),
      any-role_grants roles g.roles,
      any-group_grants groups roles ids,
    )
  ]

  any-sources :
      (D : Derived) (own : List PermissionGrant) (groups : List GroupRecord)
      (roles : List RoleRecord) (group_ids role_ids : List ℕ)
      → any p (
          dedup D (
            sort_by_key D
              ((own ++ group_grants groups roles group_ids) ++ role_grants roles role_ids)))
        ≡ ((any p own || through_groups groups roles group_ids) || through_roles roles role_ids)
  any-sources D own groups roles group_ids role_ids =
      let from_groups = group_grants groups roles group_ids in
      let from_roles = role_grants roles role_ids in
      let all = (own ++ from_groups) ++ from_roles in
      any-dedup D (sort_by_key D all)
      ∙ any-sort_by_key D all
      ∙ rw
          (
            any-append (own ++ from_groups) from_roles,
            any-append own from_groups,
            any-group_grants groups roles group_ids,
            any-role_grants roles role_ids,
          )
          refl

  -- A principal of a system user passes a test on its grants exactly when a direct grant of the
  -- user passes it, or a grant of a group that the user lists and that exists, or a grant of an
  -- existing role of such a group, or a grant of an existing role that the user lists. The sorting
  -- and the removal of duplicates make no difference.
  pub resolve_system_grants-any :
      (D : Derived) (user : SystemUserRecord) (groups : List GroupRecord) (roles : List RoleRecord)
      → any p (from_system_user D user groups roles).effective_grants ≡ (
          (any p user.grants || through_groups groups roles user.group_ids)
          || through_roles roles user.role_ids)
  unfolding from_system_user resolve_system_grants
  resolve_system_grants-any D user groups roles =
      any-sources D user.grants groups roles user.group_ids user.role_ids

  -- A principal of a tenant user passes a test exactly when a direct grant of the system user passes
  -- it, or a grant that the tenant user has through the tenant's groups and roles; the groups and
  -- roles of the system user do not count.
  pub resolve_tenant_grants-any :
      (D : Derived) (user : SystemUserRecord) (tenant_user : TenantUserRecord)
      (groups : List GroupRecord) (roles : List RoleRecord)
      → any p (from_tenant_user D user tenant_user groups roles).effective_grants ≡ (
          (any p user.grants || through_groups groups roles tenant_user.group_ids)
          || through_roles roles tenant_user.role_ids)
  unfolding from_tenant_user resolve_tenant_grants
  resolve_tenant_grants-any D user tenant_user groups roles =
      any-sources D user.grants groups roles tenant_user.group_ids tenant_user.role_ids

  -- A hybrid principal passes a test exactly when the system principal or the tenant principal of
  -- the same user does.
  pub from_hybrid_user-any :
      (D : Derived) (user : SystemUserRecord) (groups : List GroupRecord) (roles : List RoleRecord)
      (tenant_user : TenantUserRecord) (tenant_groups : List GroupRecord)
      (tenant_roles : List RoleRecord)
      → any p
          (from_hybrid_user D user groups roles tenant_user tenant_groups
            tenant_roles).effective_grants
        ≡ (any p (from_system_user D user groups roles).effective_grants
            || any p
                (from_tenant_user D user tenant_user tenant_groups tenant_roles).effective_grants)
  unfolding from_hybrid_user from_system_user from_tenant_user
  from_hybrid_user-any D user groups roles tenant_user tenant_groups tenant_roles =
      let s = resolve_system_grants D user groups roles in
      let t = resolve_tenant_grants D user tenant_user tenant_groups tenant_roles in
      any-dedup D (sort_by_key D (s ++ t)) ∙ any-sort_by_key D (s ++ t) ∙ any-append s t
