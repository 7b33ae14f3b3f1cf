-- ===== src/Auth.antt =====
-- src/agents/api/auth.py: the gate in front of `/inbox` and `/admin/*`. `hmac.compare_digest` is
-- equality of texts, and the request is the path and the three headers that the gate reads.
pub mod Admission
pub mod Examples
use langgraph_agents.Base.{
  Bool, true, false, Option, none, some, [], ◌∷◌, not, ◌||◌, if◌then◌else◌, Text, text, text_eq,
  starts_with, strip, lower, split_once,
}

pub record AuthRequest : Type 0 where
  pub path : Text
  pub authorization : Option Text
  pub x_forwarded_email : Option Text
  pub x_auth_request_email : Option Text

pub data AuthResponse : Type 0 where
  passed : AuthResponse  -- what `call_next` returns
  unauthorized : AuthResponse  -- 401
  forbidden : AuthResponse  -- 403

-- `^/(inbox|admin/)`
unfoldable pub is_protected : Text → Bool
is_protected path = starts_with (text "/inbox") path || starts_with (text "/admin/") path

-- x or None
abbrev pub or_none : Text → Option Text
or_none [] = none
or_none (c ∷ s) = some (c ∷ s)

abbrev pub bearer_of : Option (Text × Text) → Option Text
bearer_of none = none
bearer_of (some (scheme, credentials)) =
    if text_eq (lower scheme) (text "bearer") then or_none (strip credentials) else none

unfoldable pub extract_bearer : Option Text → Option Text
extract_bearer none = none
extract_bearer (some []) = none
extract_bearer (some (c ∷ s)) = bearer_of (split_once b' ' (strip (c ∷ s)))

-- One header: its stripped value, unless it is missing or blank.
abbrev pub attested : Option Text → Option Text
attested none = none
attested (some v) = or_none (strip v)

abbrev pub first_of : Option Text → Option Text → Option Text
first_of none e = e
first_of (some v) e = some v

unfoldable pub extract_oauth2_proxy_email : AuthRequest → Option Text
extract_oauth2_proxy_email r =
    first_of (attested r.x_forwarded_email) (attested r.x_auth_request_email)

abbrev pub on_session : Option Text → AuthResponse
on_session none = unauthorized
on_session (some user) = passed

abbrev pub on_bearer : Text → Option Text → Option Text → AuthResponse
on_bearer expected (some presented) user = if text_eq presented expected then passed else forbidden
on_bearer expected none user = on_session user

abbrev pub on_protected : AuthRequest → Option Text → AuthResponse
on_protected r none = passed
on_protected r (some expected) =
    on_bearer expected (extract_bearer r.authorization) (extract_oauth2_proxy_email r)

-- `hai_cli_token` is `app.state.hai_cli_token`.
unfoldable pub hai_cli_auth_middleware : (hai_cli_token : Option Text) → AuthRequest → AuthResponse
hai_cli_auth_middleware hai_cli_token r =
    if not (is_protected r.path) then passed else on_protected r hai_cli_token
