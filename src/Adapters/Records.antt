-- ===== src/Adapters/Records.antt =====
-- The capability records: one for each adapter, and their health.
use swarm_intelligence_engin.Prelude.{
  ◌≡◌, ◌≢◌, ◌∙◌, refl, ap, List, [], ◌∷◌, ◌++◌, map, All, String, arith,
}
use swarm_intelligence_engin.Adapters.{
  Adapter, AdapterHealth, unknown, checked, AdapterCapabilityRecord, AdapterRegistry,
  build_capability_record, record_of_kind, register, AgentKind, validate_health_on_startup,
}

map-snoc :
    {A : Type 0} (f : A → String) (xs : List A) (x : A)
    → map f (xs ++ (x ∷ [])) ≡ map f xs ++ (f x ∷ [])
map-snoc f [] x = refl
map-snoc f (y ∷ ys) x = ap (λ zs. f y ∷ zs) (map-snoc f ys x)

-- There is a capability record for each adapter, in the same order.
abbrev pub IsRecorded : AdapterRegistry → Type 0
IsRecorded r = map (λ c. c.adapter_id) r.capabilities ≡ map (λ a. a.name) r.adapters

record_id : (k : AgentKind) (a : Adapter) → (record_of_kind k a).adapter_id ≡ a.name
record_id k a = ground arith

-- Registering an adapter keeps one capability record for each adapter, in the same order.
pub register-IsRecorded :
    (a : Adapter) (r : AdapterRegistry) → IsRecorded r → IsRecorded (register a r)
unfolding register build_capability_record
register-IsRecorded a r h =
    map-snoc (λ c. c.adapter_id) r.capabilities (record_of_kind a.agent_kind a)
    ∙ rw (h, record_id a.agent_kind a, map-snoc (λ b. b.name) r.adapters a) refl

checked_known : (h : AdapterHealth) → checked h ≢ unknown
checked_known h = ground arith

-- After the startup check no adapter has an unknown health, the identifiers are the same, and the
-- returned list says of each adapter what its record says.
pub validate_health_on_startup-report :
    (records : List AdapterCapabilityRecord)
    → let out = validate_health_on_startup records in
      All (λ c. c.health ≢ unknown) out.0
      × (map (λ c. c.adapter_id) out.0 ≡ map (λ c. c.adapter_id) records)
      × (out.1 ≡ map (λ c. (c.adapter_id, c.health)) out.0)
unfolding validate_health_on_startup
validate_health_on_startup-report [] = (tt, refl, refl)
validate_health_on_startup-report (c ∷ rest) =
    let (known, ids, report) = validate_health_on_startup-report rest in
    (
      (checked_known c.health, known),
      ap (λ xs. c.adapter_id ∷ xs) ids,
      ap (λ xs. (c.adapter_id, checked c.health) ∷ xs) report,
    )
