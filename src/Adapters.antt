-- ===== src/Adapters.antt =====
-- packages/agent-adapters/src/capability.rs and registry.rs: the registered adapters, their
-- capability records, and the choice of an adapter. An adapter is a program outside the repository;
-- the registry reads its name and its kind.
pub mod Selection
pub mod Chain
pub mod Records
use swarm_intelligence_engin.Prelude.{
  ℕ, Bool, true, false, not, ◌==◌, if◌then◌else◌, List, [], ◌∷◌, ◌++◌, map, any, filter, find?,
  first?, Option, none, some, String, str_eq,
}

pub data AgentKind : Type 0 where
  codex claude generic_cli http_api local : AgentKind

pub data AdapterHealth : Type 0 where
  healthy degraded unhealthy unknown : AdapterHealth

abbrev pub is_unhealthy : AdapterHealth → Bool
is_unhealthy unhealthy = true
is_unhealthy _ = false

pub record AdapterCapabilityRecord : Type 0 where
  pub adapter_id : String
  pub agent_kind : AgentKind
  pub display_name : String
  pub accepted_task_kinds : List String
  pub max_concurrency : ℕ
  pub max_context_tokens : ℕ
  pub supports_streaming : Bool
  pub supports_cancel : Bool
  pub health : AdapterHealth
  pub model_name : String
  pub provider_mode : String

pub record Adapter : Type 0 where
  pub name : String
  pub agent_kind : AgentKind

-- `capabilities` is the list of the capability registry.
pub record AdapterRegistry : Type 0 where
  pub adapters : List Adapter
  pub capabilities : List AdapterCapabilityRecord

abbrev pub new_registry : AdapterRegistry
new_registry = record { adapters = []; capabilities = [] }

-- The defaults of a kind of agent, in a record with the name.
abbrev defaults :
    Adapter → List String → ℕ → Bool → Bool → String → String → AdapterCapabilityRecord
defaults a kinds tokens stream cancel mode model = record {
  adapter_id = a.name;
  agent_kind = a.agent_kind;
  display_name = a.name;
  accepted_task_kinds = kinds;
  max_concurrency = 4;
  max_context_tokens = tokens;
  supports_streaming = stream;
  supports_cancel = cancel;
  health = unknown;
  model_name = model;
  provider_mode = mode;
}

abbrev pub record_of_kind : AgentKind → Adapter → AdapterCapabilityRecord
record_of_kind claude a =
    defaults a ("code" ∷ "review" ∷ "plan" ∷ "chat" ∷ []) 200000 false false "cli" "claude-default"
record_of_kind codex a =
    defaults a ("code" ∷ "review" ∷ "plan" ∷ []) 1000000 false false "cli" "gpt-5.4"
record_of_kind http_api a =
    defaults a ("code" ∷ "review" ∷ "plan" ∷ "chat" ∷ []) 200000 true true "api" "api-default"
record_of_kind local a = defaults a ("code" ∷ "chat" ∷ []) 32000 false false "local" "local-default"
record_of_kind generic_cli a =
    defaults a ("code" ∷ "chat" ∷ []) 100000 false false "cli" "custom-cli"

unfoldable pub build_capability_record : Adapter → AdapterCapabilityRecord
build_capability_record a = record_of_kind a.agent_kind a

unfoldable pub register : Adapter → AdapterRegistry → AdapterRegistry
register a r = record {
  adapters = r.adapters ++ (a ∷ []);
  capabilities = r.capabilities ++ (build_capability_record a ∷ []);
}

abbrev pub named : String → Adapter → Bool
named name a = str_eq a.name name

abbrev pub record_of : String → AdapterCapabilityRecord → Bool
record_of name c = str_eq c.adapter_id name

unfoldable pub get : AdapterRegistry → String → Option Adapter
get r name = find? (named name) r.adapters

abbrev pub or_first : Option Adapter → List Adapter → Option Adapter
or_first none adapters = first? adapters
or_first (some a) adapters = some a

abbrev pub get_preferred : AdapterRegistry → Option String → Option Adapter
get_preferred r none = none
get_preferred r (some name) = get r name

unfoldable pub select : AdapterRegistry → Option String → Option Adapter
select r preferred = or_first (get_preferred r preferred) r.adapters

abbrev pub health_allows : Option AdapterCapabilityRecord → Bool
health_allows none = true
health_allows (some c) = not (is_unhealthy c.health)

-- Whether the loop of `select_with_fallback` takes the adapter.
unfoldable pub is_healthy : AdapterRegistry → Adapter → Bool
is_healthy r a = health_allows (find? (record_of a.name) r.capabilities)

-- The preferred adapter, which needs a capability record that is not unhealthy.
abbrev pub if_recorded : AdapterRegistry → String → Option AdapterCapabilityRecord → Option Adapter
if_recorded r name none = none
if_recorded r name (some c) = if not (is_unhealthy c.health) then get r name else none

abbrev pub preferred_healthy : AdapterRegistry → Option String → Option Adapter
preferred_healthy r none = none
preferred_healthy r (some name) = if_recorded r name (find? (record_of name) r.capabilities)

abbrev pub or_else_adapter : Option Adapter → Option Adapter → Option Adapter
or_else_adapter none d = d
or_else_adapter (some a) d = some a

unfoldable pub select_with_fallback : AdapterRegistry → Option String → Option Adapter
select_with_fallback r preferred =
    or_else_adapter (preferred_healthy r preferred)
      (or_first (find? (is_healthy r) r.adapters) r.adapters)

-- The loop of `fallback_chain`.
unfoldable pub extend_chain : List Adapter → List Adapter → List Adapter
extend_chain chain [] = chain
extend_chain chain (a ∷ rest) =
    extend_chain (if any (named a.name) chain then chain else chain ++ (a ∷ [])) rest

abbrev pub singleton : Option Adapter → List Adapter
singleton none = []
singleton (some a) = a ∷ []

unfoldable pub fallback_chain : AdapterRegistry → Option String → List Adapter
fallback_chain r preferred = extend_chain (singleton (get_preferred r preferred)) r.adapters

unfoldable pub find_by_task_kind :
    String → List AdapterCapabilityRecord → List AdapterCapabilityRecord
find_by_task_kind kind records =
    filter (λ c. not (is_unhealthy c.health))
      (filter (λ c. any (λ k. str_eq k kind) c.accepted_task_kinds) records)

-- The first record with the name is changed.
unfoldable pub update_health :
    String → AdapterHealth → List AdapterCapabilityRecord → List AdapterCapabilityRecord
update_health name value [] = []
update_health name value (c ∷ rest) =
    let rest' = update_health name value rest in
    if record_of name c then record c { health = value } ∷ rest else c ∷ rest'

-- The health that an adapter has after the startup check.
abbrev pub checked : AdapterHealth → AdapterHealth
checked unknown = healthy
checked healthy = healthy
checked degraded = degraded
checked unhealthy = unhealthy

-- The changed records, and the list that is returned for logging.
unfoldable pub validate_health_on_startup :
    List AdapterCapabilityRecord → List AdapterCapabilityRecord × List (String × AdapterHealth)
validate_health_on_startup [] = ([], [])
validate_health_on_startup (c ∷ rest) =
    let (records, results) = validate_health_on_startup rest in
    let c' = record c { health = checked c.health } in
    (c' ∷ records, (c'.adapter_id, c'.health) ∷ results)
