-- ===== src/Access/Guard.antt =====
-- `ApiKeyGuard` of src/compliance/api-key.guard.ts: what a request needs to reach a handler. The
-- metadata of the handler and its class and the environment are arguments.
use ranking.Prelude.{
  ℕ, Bool, ◌&&◌, ◌||◌, not, Option, none, some, List, [], ◌∷◌, if◌then◌else◌, any, or_else,
}
use ranking.Prelude.Keys.{◌==◌}
use ranking.Prelude.Texts.{Text, codes, text_key, starts_with, to_upper}
use ranking.Access.{
  Scope, has_scope, Headers, ApiKey, Context, Denial, Answer, authenticate_headers,
}

-- API_AUTH_REQUIRED and API_ADMIN_OPEN are not 'false'.
pub record Environment : Type 0 where
  pub auth_required : Bool
  pub admin_not_closed : Bool

-- The metadata PUBLIC_ROUTE_KEY and REQUIRED_SCOPES_KEY; undefined scopes are [].
pub record Route : Type 0 where
  pub is_public : Bool
  pub required : List Scope

pub record Request : Type 0 where
  pub path : Text
  pub method : Option Text
  pub headers : Headers

abbrev pub v1_read_scopes : List Scope
v1_read_scopes = Scope.read ∷ Scope.write ∷ Scope.admin ∷ []

abbrev pub v1_write_scopes : List Scope
v1_write_scopes = Scope.write ∷ Scope.admin ∷ []

unfoldable pub is_always_public_path : Text → Bool
is_always_public_path path =
    path == codes "/health"
    || (starts_with path (codes "/health/") || path == codes "/v1/realtime/stream")

unfoldable pub is_write : Option Text → Bool
is_write method =
    any (λ m. to_upper (or_else method (codes "GET")) == m)
      (codes "POST" ∷ codes "PUT" ∷ codes "PATCH" ∷ codes "DELETE" ∷ [])

-- `wanted.some((s) => scopes.includes(s))`.
abbrev pub has_any : List Scope → List Scope → Bool
has_any wanted scopes = any (has_scope scopes) wanted

unfoldable pub enforce_v1_scopes : Request → Context → Answer (Option Context)
unfolding is_always_public_path is_write
enforce_v1_scopes req auth =
    if not (starts_with req.path (codes "/v1/")) || is_always_public_path req.path
    then Answer.granted (some auth)
    else if is_write req.method
    then if has_any v1_write_scopes auth.scopes
      then Answer.granted (some auth)
      else Answer.denied Denial.write_scope_required
    else if has_any v1_read_scopes auth.scopes
    then Answer.granted (some auth)
    else Answer.denied Denial.read_scope_required

-- The rest of `canActivate`, when the headers are accepted.
unfoldable pub check_scopes :
    Environment → List Scope → Request → Option Context → Answer (Option Context)
unfolding enforce_v1_scopes
check_scopes env [] req none = Answer.granted none
check_scopes env [] req (some auth) =
    if env.auth_required then enforce_v1_scopes req auth else Answer.granted (some auth)
check_scopes env (s ∷ required) req none =
    if not env.auth_required && env.admin_not_closed
    then Answer.granted none
    else Answer.denied Denial.key_required_for_route
check_scopes env (s ∷ required) req (some auth) =
    if has_any (s ∷ required) auth.scopes
    then Answer.granted (some auth)
    else Answer.denied Denial.missing_scope

module _ {F : Type 0} where
  abbrev pub after_authentication :
      Environment
      → Route
      → Request
      → List (ApiKey F) × Answer (Option Context)
      → List (ApiKey F) × Answer (Option Context)
  after_authentication env route req (keys, Answer.denied reason) = (keys, Answer.denied reason)
  after_authentication env route req (keys, Answer.granted auth) =
      (keys, check_scopes env route.required req auth)

  -- `canActivate`: the table of keys after it, and the context of the request or the exception.
  unfoldable pub can_activate :
      (Text → Text)
      → Environment
      → Route
      → ℕ
      → List (ApiKey F)
      → Request
      → List (ApiKey F) × Answer (Option Context)
  unfolding check_scopes is_always_public_path authenticate_headers
  can_activate hash_api_key env route now keys req =
      if route.is_public || is_always_public_path req.path
      then (keys, Answer.granted none)
      else after_authentication env route req
          (authenticate_headers hash_api_key env.auth_required now keys req.headers)
