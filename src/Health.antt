-- ===== src/Health.antt =====
-- src/agents/health.py: the probe cache. A probe is what `GET /api/tags` answers at a time, `none`
-- for an error of the transport; time is in seconds. A call is one step: the network is not awaited
-- while another thread writes.
pub mod Freshness
pub mod Examples
use langgraph_agents.Base.{
  ℕ, ◌+◌, Bool, true, false, Option, none, some, List, [], ◌∷◌, ◌==◌, ltb, if◌then◌else◌, Text, get,
  put, Text_eq,
}

abbrev pub Cache : Type 0
Cache = List (Text × (ℕ × Bool))

-- s.rstrip("/")
abbrev pub before_rest : ℕ → Text → Text
before_rest c [] = if c == b'/' then [] else c ∷ []
before_rest c (d ∷ t) = c ∷ d ∷ t

unfoldable pub rstrip_slash : Text → Text
rstrip_slash [] = []
rstrip_slash (c ∷ s) = before_rest c (rstrip_slash s)

abbrev pub is_healthy : Option ℕ → Bool
is_healthy none = false
is_healthy (some status) = status == 200

module _ (probe : ℕ → Text → Option ℕ) where
  abbrev pub probed : ℕ → Text → Cache → Bool × Cache
  probed now url cache =
      (is_healthy (probe now url), put cache url (now, is_healthy (probe now url)))

  abbrev pub on_cached : ℕ → ℕ → Text → Cache → Option (ℕ × Bool) → Bool × Cache
  on_cached ttl now url cache none = probed now url cache
  on_cached ttl now url cache (some (at, healthy)) =
      if ltb now (at + ttl) then (healthy, cache) else probed now url cache

  unfoldable pub service_healthy : (ttl now : ℕ) (base_url : Text) → Cache → Bool × Cache
  service_healthy ttl now base_url cache =
      on_cached ttl now (rstrip_slash base_url) cache (get cache (rstrip_slash base_url))

  -- A run of calls, each with its time, and the answers.
  unfoldable pub calls : ℕ → List (ℕ × Text) → Cache → List Bool × Cache
  calls ttl [] cache = ([], cache)
  calls ttl ((now, base_url) ∷ rest) cache =
      let (healthy, next) = service_healthy ttl now base_url cache in
      let (later, last) = calls ttl rest next in (healthy ∷ later, last)

abbrev pub reset_cache : Cache → Cache
reset_cache cache = []
