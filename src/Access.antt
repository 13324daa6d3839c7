-- ===== src/Access.antt =====
-- The keys of the interface: src/compliance/api-key.service.ts, src/compliance/api-key-crypto.ts and
-- the scopes of src/compliance/pii-redact.ts. The table of keys is a list in the order of the ids. The
-- SHA-256 digest is an argument, and a row holds the tenant it refers to.
pub mod Guard
pub mod Admission
pub mod Keys
pub mod Tenants
pub mod Redaction
mod Tests
use ranking.Prelude.{
  ℕ, ◌≡◌, Bool, true, false, ◌&&◌, ◌||◌, not, Option, none, some, List, [], ◌∷◌, ◌++◌, map, String,
  if◌then◌else◌, any, filter, is_some, or_else, nat_beq, take,
}
use ranking.Prelude.Keys.{string_key, ◌==◌}
use ranking.Prelude.Texts.{Text, codes, text_key, starts_with, is_space, trim_start, trim, to_lower}
use ranking.Prelude.Json.{Json, Elements, elements, to_elements}

pub data Scope : Type 0 where
  read write admin : Scope

abbrev pub same_scope : Scope → Scope → Bool
same_scope Scope.read Scope.read = true
same_scope Scope.write Scope.write = true
same_scope Scope.admin Scope.admin = true
same_scope _ _ = false

-- `scopes.includes(s)`.
abbrev pub has_scope : List Scope → Scope → Bool
has_scope scopes s = any (same_scope s) scopes

abbrev pub unless_none : List Scope → List Scope
unless_none [] = Scope.read ∷ []
unless_none (s ∷ scopes) = s ∷ scopes

abbrev pub scope_named : String → Option Scope
scope_named s =
    if s == "read"
    then some Scope.read
    else if s == "write"
    then some Scope.write
    else if s == "admin"
    then some Scope.admin
    else none

module _ {F : Type 0} where
  abbrev pub scope_of : Json F → Option Scope
  scope_of (Json.text s) = scope_named s
  scope_of _ = none

  abbrev pub known_scopes : List (Json F) → List Scope
  known_scopes [] = []
  known_scopes (x ∷ xs) = elim (scope_of x) [
    | none ↦ known_scopes xs
    | some s ↦ s ∷ known_scopes xs
  ]

  unfoldable pub parse_api_key_scopes : Json F → List Scope
  parse_api_key_scopes (Json.array xs) = unless_none (known_scopes (elements xs))
  parse_api_key_scopes _ = Scope.read ∷ []

-- A value of `headers`: undefined is none.
pub data Header : Type 0 where
  one : Text → Header
  many : List Text → Header

pub record Headers : Type 0 where
  pub x_api_key : Option Header
  pub authorization : Option Header

-- `s` with the prefix `p` taken off, if it has it, in small or capital letters.
after_prefix : Text → Text → Option Text
after_prefix s [] = some s
after_prefix [] (c ∷ p) = none
after_prefix (d ∷ s) (c ∷ p) =
    if to_lower (d ∷ []) == to_lower (c ∷ []) then after_prefix s p else none

-- `.` of a pattern.
is_line_end : ℕ → Bool
is_line_end c = nat_beq c 10 || (nat_beq c 13 || (nat_beq c 8232 || nat_beq c 8233))

abbrev non_empty : Text → Option Text
non_empty [] = none
non_empty (c ∷ s) = some (c ∷ s)

-- The part after the white space, of which there is at least one character.
token_after : Text → Option Text
unfolding is_line_end
token_after [] = none
token_after (c ∷ s) =
    if is_space c && not (any is_line_end (trim_start s))
    then non_empty (trim (trim_start s))
    else none

-- `/^Bearer\s+(.+)$/i` on the trimmed header, and the trimmed group.
unfoldable pub bearer_token : Text → Option Text
unfolding after_prefix token_after
bearer_token auth = elim (after_prefix (trim auth) (codes "Bearer")) [
  | none ↦ none
  | some rest ↦ token_after rest
]

abbrev pub from_authorization : Option Header → Option Text
from_authorization (some (Header.one s)) = bearer_token s
from_authorization _ = none

unfoldable pub extract_api_key_from_headers : Headers → Option Text
extract_api_key_from_headers headers = elim headers.x_api_key [
  | some (Header.one s) ↦ elim (non_empty (trim s)) [
    | some t ↦ some t
    | none ↦ from_authorization headers.authorization
  ]
  | _ ↦ from_authorization headers.authorization
]

pub record Tenant : Type 0 where
  pub id : ℕ
  pub slug : String
  pub name : String

pub record ApiKey (F : Type 0) : Type 0 where
  pub id : ℕ
  pub tenant : Tenant
  pub label : Text
  pub key_prefix : Text
  pub key_hash : Text
  pub scopes : Json F
  pub revoked_at : Option ℕ
  pub last_used_at : Option ℕ

-- `AuthenticatedRequestContext`.
pub record Context : Type 0 where
  pub tenant_id : ℕ
  pub tenant_slug : String
  pub api_key_id : ℕ
  pub api_key_label : Text
  pub scopes : List Scope

-- The texts of `UnauthorizedException`.
pub data Denial : Type 0 where
  key_required invalid_key key_required_for_route missing_scope : Denial
  write_scope_required read_scope_required : Denial

pub data Answer (A : Type 0) : Type 0 where
  granted : A → Answer A
  denied : Denial → Answer A

module _ {F : Type 0} where
  -- `where: { keyHash, revokedAt: null }`.
  abbrev pub is_live : Text → ApiKey F → Bool
  is_live hash k = k.key_hash == hash && not (is_some k.revoked_at)

  unfoldable pub find_live : Text → List (ApiKey F) → Option (ApiKey F)
  find_live hash [] = none
  find_live hash (k ∷ keys) = if is_live hash k then some k else find_live hash keys

  abbrev pub context_of : ApiKey F → Context
  context_of k = record {
    tenant_id = k.tenant.id;
    tenant_slug = k.tenant.slug;
    api_key_id = k.id;
    api_key_label = k.label;
    scopes = parse_api_key_scopes k.scopes;
  }

  -- `update({ where: { id }, data: { lastUsedAt } })`.
  abbrev pub touch : ℕ → ℕ → List (ApiKey F) → List (ApiKey F)
  touch id now keys =
      map (λ k. if nat_beq k.id id then record k { last_used_at = some now } else k) keys

  unfoldable pub authenticate_plaintext :
      (Text → Text) → ℕ → List (ApiKey F) → Text → List (ApiKey F) × Answer Context
  unfolding find_live
  authenticate_plaintext hash_api_key now keys plaintext =
      elim (find_live (hash_api_key plaintext) keys) [
        | none ↦ (keys, Answer.denied Denial.invalid_key)
        | some k ↦ (touch k.id now keys, Answer.granted (context_of k))
      ]

  abbrev pub as_optional :
      List (ApiKey F) × Answer Context → List (ApiKey F) × Answer (Option Context)
  as_optional (keys, Answer.granted context) = (keys, Answer.granted (some context))
  as_optional (keys, Answer.denied reason) = (keys, Answer.denied reason)

  abbrev pub texts : List String → Json F
  texts scopes = Json.array (to_elements (map Json.text scopes))

  -- None of a context is the null of an anonymous request.
  unfoldable pub authenticate_headers :
      (Text → Text)
      → Bool
      → ℕ
      → List (ApiKey F)
      → Headers
      → List (ApiKey F) × Answer (Option Context)
  unfolding authenticate_plaintext extract_api_key_from_headers
  authenticate_headers hash_api_key auth_required now keys headers =
      elim (extract_api_key_from_headers headers) [
        | none ↦
            (keys, if auth_required then Answer.denied Denial.key_required else Answer.granted none)
        | some plaintext ↦ as_optional (authenticate_plaintext hash_api_key now keys plaintext)
      ]

  -- `createApiKey` with the random plaintext; none is the violation of the unique `keyHash`.
  unfoldable pub create_api_key :
      (Text → Text)
      → ℕ
      → Tenant
      → Option Text
      → Option (List String)
      → Text
      → List (ApiKey F)
      → Option (List (ApiKey F))
  create_api_key hash_api_key id tenant label scopes plaintext keys =
      if any (λ k. k.key_hash == hash_api_key plaintext) keys
      then none
      else some (
          keys
          ++ (record {
            id = id;
            tenant = tenant;
            label = trim (or_else label []);
            key_prefix = take 12 plaintext;
            key_hash = hash_api_key plaintext;
            scopes = texts (or_else scopes ("read" ∷ "write" ∷ "admin" ∷ []));
            revoked_at = none;
            last_used_at = none;
          })
            ∷ [])
