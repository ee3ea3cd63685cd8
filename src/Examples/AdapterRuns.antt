-- ===== src/Examples/AdapterRuns.antt =====
-- Concrete registries of packages/agent-adapters.
use swarm_intelligence_engin.Prelude.{◌≡◌, ◌⊎◌, refl, List, [], ◌∷◌, some, none}
use swarm_intelligence_engin.Adapters.{
  Adapter, AdapterRegistry, AdapterCapabilityRecord, claude, codex, unhealthy, is_healthy,
  extend_chain, get, record_of_kind, register, new_registry, select_with_fallback, fallback_chain,
}
use swarm_intelligence_engin.Adapters.Selection.{IsChoice, select_with_fallback-IsChoice}
use swarm_intelligence_engin.Adapters.Chain.{IsChain, fallback_chain-IsChain}
use swarm_intelligence_engin.Adapters.Records.{IsRecorded, register-IsRecorded}

abbrev codex_cli : Adapter
codex_cli = record { name = "codex"; agent_kind = codex }

abbrev claude_cli : Adapter
claude_cli = record { name = "claude"; agent_kind = claude }

abbrev codex_record : AdapterCapabilityRecord
codex_record = record (record_of_kind codex codex_cli) { health = unhealthy }

abbrev records : List AdapterCapabilityRecord
records = codex_record ∷ record_of_kind claude claude_cli ∷ []

abbrev registry : AdapterRegistry
registry = record { adapters = codex_cli ∷ claude_cli ∷ []; capabilities = records }

select_with_fallback-IsChoice_example :
    ((registry.adapters ≡ []) × (select_with_fallback registry (some "codex") ≡ none))
    ⊎ ((a : Adapter) × (select_with_fallback registry (some "codex") ≡ some a)
        × IsChoice registry a)
select_with_fallback-IsChoice_example = select_with_fallback-IsChoice registry (some "codex")

-- The preferred adapter is unhealthy.
falls_back : select_with_fallback registry (some "codex") ≡ some claude_cli
unfolding select_with_fallback is_healthy
falls_back = refl

fallback_chain-IsChain_example :
    IsChain registry (some "claude") (fallback_chain registry (some "claude"))
fallback_chain-IsChain_example = fallback_chain-IsChain registry (some "claude")

claude_first : fallback_chain registry (some "claude") ≡ claude_cli ∷ codex_cli ∷ []
unfolding fallback_chain extend_chain get
claude_first = refl

register-IsRecorded_example : IsRecorded (register codex_cli new_registry)
register-IsRecorded_example = register-IsRecorded codex_cli new_registry refl
