-- ===== src/Idempotency.antt =====
-- src/agents/idempotency.py: the store of the idempotency keys of `/inbox`. The Redis client is a
-- parameter: what it answers for `PING`, for `SET NX EX` and for `GET`, where `none` is an exception.
use langgraph_agents.Base.{
  ℕ, Bool, true, false, Option, none, some, [], if◌then◌else◌, or_else, Text, text, ◌++◌,
}

pub record Redis (S : Type 0) : Type 0 where
  pub ping : S → Bool
  pub set_nx : (now : ℕ) (key value : Text) (ex : ℕ) → S → Option Bool × S
  pub get_value : (now : ℕ) (key : Text) → S → Option (Option Text)

-- `connected` is that `_client` is set.
pub record DedupStore (S : Type 0) : Type 0 where
  pub server : S
  pub connected : Bool
  pub default_ttl : ℕ

abbrev pub full_key : Text → Text
full_key key = text "inbox:idempotency:" ++ key

-- What `set` and then `get` come to.
abbrev pub prior_of : Option Bool → Option (Option Text) → Option Text
prior_of none got = none
prior_of (some true) got = none
prior_of (some false) none = none
prior_of (some false) (some none) = some []
prior_of (some false) (some (some v)) = some v

module _ {S : Type 0} (r : Redis S) where
  unfoldable pub client_or_none : DedupStore S → DedupStore S
  client_or_none d = if d.connected then d else record d { connected = r.ping d.server }

  abbrev pub with_client :
      (now : ℕ) (key value : Text) (ttl : ℕ) → DedupStore S → Option Text × DedupStore S
  with_client now key value ttl d =
      let (stored, after) = r.set_nx now (full_key key) value ttl d.server in
      (prior_of stored (r.get_value now (full_key key) after), record d { server = after })

  unfoldable pub check_and_set :
      (now : ℕ) (key value : Text) (ttl_seconds : Option ℕ)
      → DedupStore S
      → Option Text × DedupStore S
  check_and_set now key value ttl_seconds d =
      let c = client_or_none d in
      if c.connected
      then with_client now key value (or_else ttl_seconds c.default_ttl) c
      else (none, c)

  unfoldable pub close : DedupStore S → DedupStore S
  close d = record d { connected = false }
