-- ===== src/Intake/Tenants.antt =====
-- `resolve_tenant` and `_domain_from_email` of app/queue_db.py. The JSON columns of a tenant are
-- lists.
use Prim.Native.Char.{code}
use Prim.Native.String.{[], ◌∷◌}
use mathlib.Core.List
use support_triage_llm.Base.{
  String, Bool, ◌&&◌, not, Option, none, some, ◌==◌, str_eq, map, first, if◌then◌else◌,
}
use support_triage_llm.Base.Text.{lower}
use support_triage_llm.Queue.Schema.{member}

pub record Tenant : Type 0 where
  pub tenant_id : String
  pub domains : List.List String
  pub entitled_services : List.List String
  pub default_region : Option String

pub data Confidence : Type 0 where
  high low unknown : Confidence

pub record Resolved : Type 0 where
  pub tenant_id : Option String
  pub confidence : Confidence
  pub entitled_services : List.List String
  pub default_region : Option String

-- addr.split("@", 1)[1], or "" without an "@"
unfoldable pub after_at : String → String
after_at [] = ""
after_at (c ∷ s) = let rest = after_at s in if code c == b'@' then s else rest

-- _domain_from_email
unfoldable pub domain_from_email : String → String
domain_from_email addr = lower (after_at addr)

-- domain and domain in [d.lower() for d in domains]
unfoldable pub has_domain : String → Tenant → Bool
has_domain domain t = not (str_eq domain "") && member domain (map lower t.domains)

unfoldable pub resolved_as : Confidence → Tenant → Resolved
resolved_as confidence t = record {
  tenant_id = some t.tenant_id;
  confidence = confidence;
  entitled_services = t.entitled_services;
  default_region = t.default_region;
}

unfoldable pub unresolved : Resolved
unresolved = record {
  tenant_id = none;
  confidence = unknown;
  entitled_services = List.[];
  default_region = none;
}

-- the second loop, over the claimed domain
unfoldable pub resolve_claimed : Option Tenant → Resolved
resolve_claimed none = unresolved
resolve_claimed (some t) = resolved_as low t

-- what the first loop found, or else the second
unfoldable pub resolve_from : Option Tenant → Resolved → Resolved
resolve_from none claimed = claimed
resolve_from (some t) claimed = resolved_as high t

unfoldable pub resolve_tenant : List.List Tenant → String → String → Resolved
resolve_tenant tenants from_domain claimed_domain =
    resolve_from (first (has_domain (lower from_domain)) tenants)
      (resolve_claimed (first (has_domain (lower claimed_domain)) tenants))

-- upsert_tenant
unfoldable pub upsert_tenant : Tenant → List.List Tenant → List.List Tenant
upsert_tenant t List.[] = List.◌∷◌ t List.[]
upsert_tenant t (List.◌∷◌ s tenants) =
    let rest = upsert_tenant t tenants in
    if str_eq s.tenant_id t.tenant_id then List.◌∷◌ t tenants else List.◌∷◌ s rest
