-- ===== src/Intake/Laws.antt =====
-- What the operations on intakes do.
use support_triage_llm.Base.{
  ℕ, String, ◌≡◌, refl, Bool, true, false, Option, none, some, List, [], ◌∷◌, str_eq, eq_refl,
  eq_iff, first, arith, if◌then◌else◌,
}
use mathlib.Core.Option
use support_triage_llm.Base.Text.{lower}
use support_triage_llm.Intake.Tenants.{
  Tenant, high, has_domain, resolved_as, unresolved, resolve_claimed, resolve_from, resolve_tenant,
}
use support_triage_llm.Intake.Intakes.{
  Intake, get_intake, change_intake, set_status, update_intake_status, coalesce_time,
}

get_intake-change :
    (id : String) (f : Intake → Intake)
    → ((i : Intake) → (f i).intake_id ≡ i.intake_id)
    → (j : String) (intakes : List Intake)
    → get_intake j (change_intake id f intakes)
      ≡ (if str_eq id j then Option.map f (get_intake j intakes) else get_intake j intakes)
unfolding get_intake change_intake
get_intake-change id f same j [] = ground arith
get_intake-change id f same j (i ∷ is) = ground (
  arith,
  get_intake-change id f same j is,
  same i,
  eq_iff i.intake_id id,
  eq_iff i.intake_id j,
  eq_iff id j,
)

resolve_from-claimed :
    (a b c : Option Tenant)
    → (resolve_from a (resolve_claimed b)).confidence ≡ high
    → resolve_from a (resolve_claimed c) ≡ resolve_from a (resolve_claimed b)
unfolding resolve_from resolve_claimed resolved_as unresolved
resolve_from-claimed (some t) b c h = refl
resolve_from-claimed none none c h = absurd (cc h)
resolve_from-claimed none (some t) c h = absurd (cc h)

-- When a tenant is resolved with high confidence, the result does not depend on the domain that the
-- customer claims.
pub resolve_tenant-claimed :
    (tenants : List Tenant) (from_domain claimed claimed' : String)
    → (resolve_tenant tenants from_domain claimed).confidence ≡ high
    → resolve_tenant tenants from_domain claimed' ≡ resolve_tenant tenants from_domain claimed
unfolding resolve_tenant
resolve_tenant-claimed tenants from_domain claimed claimed' h =
    resolve_from-claimed (first (has_domain (lower from_domain)) tenants)
      (first (has_domain (lower claimed)) tenants) (first (has_domain (lower claimed')) tenants) h

-- The intake that a change is for is read changed.
pub get_intake-change_found :
    (id : String) (f : Intake → Intake)
    → ((i : Intake) → (f i).intake_id ≡ i.intake_id)
    → (intakes : List Intake) (i : Intake) → get_intake id intakes ≡ some i
    → get_intake id (change_intake id f intakes) ≡ some (f i)
get_intake-change_found id f same intakes i found =
    rw (get_intake-change id f same id intakes, eq_refl id, found) refl

resolved_at_lem :
    (b : Bool) (t u : ℕ)
    → coalesce_time (if b then some t else none) (some u) ≡ some (if b then t else u)
unfolding coalesce_time
resolved_at_lem true t u = refl
resolved_at_lem false t u = refl

-- An intake that is resolved with a note, and whose status is then changed without one, keeps the
-- note and the time of its resolution, unless the change resolves it again.
pub update_intake_status-resolved :
    (resolved now resolved' now' : ℕ) (id status : String) (note : String) (intakes : List Intake)
    (i : Intake)
    → get_intake id intakes ≡ some i
    → (j : Intake) × (get_intake id (
          update_intake_status resolved' now' id status none
            (update_intake_status resolved now id "resolved" (some note) intakes))
        ≡ some j)
      × (j.resolved_at ≡ some (if str_eq status "resolved" then resolved' else resolved))
      × (j.resolution_note ≡ note)
      × (j.status ≡ status)
unfolding update_intake_status set_status coalesce_time
update_intake_status-resolved resolved now resolved' now' id status note intakes i found =
    let resolve = set_status resolved now "resolved" (some note) in
    let later = set_status resolved' now' status none in
    (
      later (resolve i),
      get_intake-change_found id later (λ k. refl) (change_intake id resolve intakes) (resolve i)
          (get_intake-change_found id resolve (λ k. refl) intakes i found),
      resolved_at_lem (str_eq status "resolved") resolved' resolved,
      refl,
      refl,
    )
