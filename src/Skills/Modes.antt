-- ===== src/Skills/Modes.antt =====
-- packages/skill-registry/src/lib.rs: the textual form of a provider mode, written and read.
use swarm_intelligence_engin.Prelude.{
  ◌≡◌, refl, ◌↔◌, sym, if◌then◌else◌, String, str_eq, eq_iff, append, Result, arith, ok, err,
}
use swarm_intelligence_engin.Skills.Manifests.{ProviderMode, api, session, local}

-- `Display::fmt`.
unfoldable pub fmt : ProviderMode → String
fmt api = "api"
fmt session = "session"
fmt local = "local"

-- `FromStr::from_str`.
unfoldable pub from_str : String → Result String ProviderMode
from_str s =
    if str_eq s "api"
    then ok api
    else if str_eq s "session"
    then ok session
    else if str_eq s "local"
    then ok local
    else err (append "unknown provider_mode: '" (append s "'"))

from_str-fmt : (m : ProviderMode) → from_str (fmt m) ≡ ok m
unfolding from_str fmt
from_str-fmt api = refl
from_str-fmt session = refl
from_str-fmt local = refl

fmt-from_str : (s : String) (m : ProviderMode) → from_str s ≡ ok m → fmt m ≡ s
unfolding from_str fmt
fmt-from_str s api h = ground (arith, eq_iff s "api", eq_iff s "session", eq_iff s "local")
fmt-from_str s session h = ground (arith, eq_iff s "api", eq_iff s "session", eq_iff s "local")
fmt-from_str s local h = ground (arith, eq_iff s "api", eq_iff s "session", eq_iff s "local")

-- The texts that are read as a mode are exactly those that the mode is written as.
pub from_str-ok_iff : (s : String) (m : ProviderMode) → (from_str s ≡ ok m) ↔ (s ≡ fmt m)
from_str-ok_iff s m = (λ h. sym (fmt-from_str s m h), λ e. rw e (from_str-fmt m))
