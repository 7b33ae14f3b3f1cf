-- ===== src/Auth/Examples.antt =====
-- The gate on concrete requests.
use langgraph_agents.Base.{◌≡◌, ◌↔◌, ◌⊎◌, refl, true, none, some, text, is_some, starts_with}
use langgraph_agents.Base.{rstrip}
use langgraph_agents.Auth.{
  AuthRequest, passed, is_protected, extract_bearer, extract_oauth2_proxy_email,
  hai_cli_auth_middleware,
}
use langgraph_agents.Auth.Admission.{middleware-passed}

abbrev list_todos_request : AuthRequest
list_todos_request = record {
  path = text "/admin/todos";
  authorization = some (text "Bearer tok");
  x_forwarded_email = none;
  x_auth_request_email = none;
}

list_todos-protected : is_protected list_todos_request.path ≡ true
unfolding is_protected starts_with
list_todos-protected = refl

tok-stripped : rstrip (text "tok") ≡ text "tok"
unfolding rstrip
tok-stripped = refl

middleware-passed_example :
    (hai_cli_auth_middleware (some (text "tok")) list_todos_request ≡ passed) ↔ (
      (extract_bearer list_todos_request.authorization ≡ some (text "tok"))
      ⊎ ((extract_bearer list_todos_request.authorization ≡ none)
          × (is_some (extract_oauth2_proxy_email list_todos_request) ≡ true)))
middleware-passed_example = middleware-passed (text "tok") list_todos_request list_todos-protected
