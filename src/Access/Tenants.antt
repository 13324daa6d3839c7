-- ===== src/Access/Tenants.antt =====
-- The topics of a tenant: src/compliance/tenant-scope.ts. The filter of the queries is the test of a
-- row that it stands for.
use ranking.Prelude.{
  ℕ, ◌≡◌, ◌↔◌, ◌⊎◌, Bool, true, false, Option, none, some, arith, nat_beq, not, if◌then◌else◌,
}
use ranking.Access.{Context}

-- `auth?.tenantId`, none where it is falsy.
abbrev pub tenant_of : Option Context → Option ℕ
tenant_of none = none
tenant_of (some auth) = if nat_beq auth.tenant_id 0 then none else some auth.tenant_id

abbrev pub is_tenant : Option ℕ → ℕ → Bool
is_tenant none t = false
is_tenant (some u) t = nat_beq u t

-- A row with this tenant is in `findMany({ where: topicWhereForAuth(auth) })`.
unfoldable pub topic_where_for_auth : Option Context → Option ℕ → Bool
topic_where_for_auth auth tenant_id = elim (tenant_of auth) [
  | none ↦ true
  | some t ↦ is_tenant tenant_id t
]

abbrev pub is_other : Option ℕ → ℕ → Bool
is_other none t = false
is_other (some u) t = not (nat_beq u t)

-- The topic, by its tenant, passes; none is a missing topic, and false is the exception.
unfoldable pub assert_topic_accessible : Option (Option ℕ) → Option Context → Bool
assert_topic_accessible none auth = true
assert_topic_accessible (some tenant_id) auth = elim (tenant_of auth) [
  | none ↦ true
  | some t ↦ not (is_other tenant_id t)
]

-- A topic can be opened exactly if the list of topics shows it or it has no tenant, and a caller with a
-- tenant can open no topic of another tenant.
pub accessible_iff_listed :
    (auth : Option Context) (tenant_id : Option ℕ)
    → ((assert_topic_accessible (some tenant_id) auth ≡ true)
        ↔ ((topic_where_for_auth auth tenant_id ≡ true) ⊎ (tenant_id ≡ none)))
      × ((t u : ℕ)
          → tenant_of auth ≡ some t
          → tenant_id ≡ some u
          → assert_topic_accessible (some tenant_id) auth ≡ true
          → u ≡ t)
unfolding assert_topic_accessible topic_where_for_auth
accessible_iff_listed auth none = ground arith
accessible_iff_listed auth (some u) = ground arith
