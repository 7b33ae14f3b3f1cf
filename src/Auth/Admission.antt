-- ===== src/Auth/Admission.antt =====
-- Which requests the gate admits.
use langgraph_agents.Base.{
  ℕ, ◌≡◌, ◌↔◌, ◌⊎◌, inl, inr, refl, ap, ◌∙◌, true, false, Option, none, some, [], ◌∷◌, ◌++◌,
  is_some, Text, text, text_eq, text_eq_iff, Bool-cases, arith, rstrip, strip, lstrip, split_once,
  lower, is_space,
}
use langgraph_agents.Auth.{
  AuthRequest, passed, is_protected, extract_bearer, extract_oauth2_proxy_email, on_bearer,
  hai_cli_auth_middleware, bearer_of, or_none,
}

on_bearer-passed :
    (token : Text) (bearer user : Option Text)
    → (on_bearer token bearer user ≡ passed)
      ↔ ((bearer ≡ some token) ⊎ ((bearer ≡ none) × (is_some user ≡ true)))
on_bearer-passed token (some presented) user = ground (arith, text_eq_iff presented token)
on_bearer-passed token none none = ground arith
on_bearer-passed token none (some u) = ground arith

-- A protected request is admitted under a configured token exactly if it presents that token, or
-- presents no bearer token at all and carries the session header of the proxy.
pub middleware-passed :
    (token : Text) (r : AuthRequest)
    → is_protected r.path ≡ true
    → (hai_cli_auth_middleware (some token) r ≡ passed) ↔ (
        (extract_bearer r.authorization ≡ some token)
        ⊎ ((extract_bearer r.authorization ≡ none)
            × (is_some (extract_oauth2_proxy_email r) ≡ true)))
unfolding hai_cli_auth_middleware
middleware-passed token r p =
    rw p (on_bearer-passed token (extract_bearer r.authorization) (extract_oauth2_proxy_email r))

rstrip-prefix :
    (p : Text) (c : ℕ) (s : Text) → rstrip (c ∷ s) ≡ c ∷ s → rstrip (p ++ c ∷ s) ≡ p ++ c ∷ s
unfolding rstrip
rstrip-prefix [] c s h = h
rstrip-prefix (d ∷ []) c s h = rw h refl
rstrip-prefix (d ∷ e ∷ p) c s h = rw (rstrip-prefix (e ∷ p) c s h) refl

strip-bearer :
    (c : ℕ) (token : Text)
    → rstrip (c ∷ token) ≡ c ∷ token
    → strip (text "Bearer " ++ c ∷ token) ≡ text "Bearer " ++ c ∷ token
unfolding strip lstrip
strip-bearer c token h = rstrip-prefix (text "Bearer ") c token h

strip-plain :
    (c : ℕ) (token : Text)
    → is_space c ≡ false
    → rstrip (c ∷ token) ≡ c ∷ token
    → strip (c ∷ token) ≡ c ∷ token
unfolding strip lstrip
strip-plain c token h e = rw h e

bearer_of-plain :
    (c : ℕ) (token : Text)
    → strip (c ∷ token) ≡ c ∷ token
    → bearer_of (split_once b' ' (text "Bearer " ++ c ∷ token)) ≡ some (c ∷ token)
unfolding split_once lower text_eq
bearer_of-plain c token h = ap or_none h

extract_bearer-header :
    (c : ℕ) (token : Text)
    → is_space c ≡ false
    → rstrip (c ∷ token) ≡ c ∷ token
    → extract_bearer (some (text "Bearer " ++ c ∷ token)) ≡ some (c ∷ token)
unfolding extract_bearer
extract_bearer-header c token h e =
    ap (λ t. bearer_of (split_once b' ' t)) (strip-bearer c token e)
    ∙ bearer_of-plain c token (strip-plain c token h e)

-- The header that the command line client sends is admitted on every path, where the configured
-- token is not empty and has no white space at either end.
pub middleware-header :
    (c : ℕ) (token : Text) (r : AuthRequest)
    → is_space c ≡ false
    → rstrip (c ∷ token) ≡ c ∷ token
    → r.authorization ≡ some (text "Bearer " ++ c ∷ token)
    → hai_cli_auth_middleware (some (c ∷ token)) r ≡ passed
unfolding hai_cli_auth_middleware
middleware-header c token r h e a = elim (Bool-cases (is_protected r.path)) [
  | inl gated ↦ rw gated (
      (on_bearer-passed (c ∷ token) (extract_bearer r.authorization)
          (extract_oauth2_proxy_email r)).1
        (inl (ap extract_bearer a ∙ extract_bearer-header c token h e)))
  | inr exempt ↦ rw exempt refl
]
