-- ===== src/Health/Freshness.antt =====
-- Every answer is a probe that was made within the window.
use langgraph_agents.Base.{
  ℕ, ◌+◌, ◌≡◌, ◌⊎◌, inl, inr, refl, sym, ◌∙◌, Bool, true, Option, none, some, List, [], ◌∷◌, ltb,
  Text, text_eq, text_eq_iff, get, get-put, Text_eq, Bool-cases, arith,
}
use langgraph_agents.Health.{
  Cache, rstrip_slash, is_healthy, probed, on_cached, service_healthy, calls,
}

module _ (probe : ℕ → Text → Option ℕ) where
  -- Each entry is what the probe answered at its time.
  abbrev pub IsHonest : Cache → Type 0
  IsHonest cache =
      (url : Text) (entry : ℕ × Bool)
      → get cache url ≡ some entry
      → entry.1 ≡ is_healthy (probe entry.0 url)

  -- An answer at `now`: of a probe made now, or less than `ttl` before.
  abbrev pub IsFresh : ℕ → ℕ → Text → Bool → Type 0
  IsFresh ttl now url healthy =
      (at : ℕ) × ((at ≡ now) ⊎ (ltb now (at + ttl) ≡ true)) × (healthy ≡ is_healthy (probe at url))

  probed-IsHonest :
      (now : ℕ) (url : Text) (cache : Cache)
      → IsHonest cache
      → IsHonest (probed probe now url cache).1
  probed-IsHonest now url cache h u entry g =
      let e = get-put cache url u (now, is_healthy (probe now url)) in
      elim (Bool-cases (text_eq url u)) [
        | inl same ↦
            let f : some (now, is_healthy (probe now url)) ≡ some entry =
              sym (e ∙ rw same refl) ∙ g in
            let k : url ≡ u = (text_eq_iff url u).0 same in cc (f, k)
        | inr other ↦ h u entry (sym (e ∙ rw other refl) ∙ g)
      ]

  pub on_cached-IsFresh :
      (ttl now : ℕ) (url : Text) (cache : Cache) (o : Option (ℕ × Bool))
      → IsHonest cache
      → get cache url ≡ o
      → let r = on_cached probe ttl now url cache o in IsFresh ttl now url r.0 × IsHonest r.1
  on_cached-IsFresh ttl now url cache none h g =
      ((now, inl refl, refl), probed-IsHonest now url cache h)
  on_cached-IsFresh ttl now url cache (some (at, healthy)) h g =
      elim (Bool-cases (ltb now (at + ttl))) [
        | inl young ↦ rw young ((at, inr young, h url (at, healthy) g), h)
        | inr old ↦ rw old ((now, inl refl, refl), probed-IsHonest now url cache h)
      ]

  -- The answers of a run of calls, each for its call.
  abbrev pub AreFresh : ℕ → List (ℕ × Text) → List Bool → Type 0
  AreFresh ttl ((now, base_url) ∷ rest) (healthy ∷ later) =
      IsFresh ttl now (rstrip_slash base_url) healthy × AreFresh ttl rest later
  AreFresh ttl [] [] = Unit
  AreFresh ttl _ _ = ⊥

  calls-from :
      (ttl : ℕ) (run : List (ℕ × Text)) (cache : Cache)
      → IsHonest cache
      → AreFresh ttl run (calls probe ttl run cache).0
  unfolding calls service_healthy
  calls-from ttl [] cache h = tt
  calls-from ttl ((now, base_url) ∷ rest) cache h =
      let url = rstrip_slash base_url in
      let (fresh, next) = on_cached-IsFresh ttl now url cache (get cache url) h refl in
      (fresh, calls-from ttl rest (on_cached probe ttl now url cache (get cache url)).1 next)

empty-IsHonest : (probe : ℕ → Text → Option ℕ) → IsHonest probe []
unfolding get
empty-IsHonest probe url entry g = ground arith

-- In a run of calls from an empty cache, every answer is what a probe of that service found at the
-- time of the call or less than the time to live before it.
pub calls-AreFresh :
    (probe : ℕ → Text → Option ℕ) (ttl : ℕ) (run : List (ℕ × Text))
    → AreFresh probe ttl run (calls probe ttl run []).0
calls-AreFresh probe ttl run = calls-from probe ttl run [] (empty-IsHonest probe)
