-- ===== src/Access/Keys.antt =====
-- A key from `createApiKey` to the request that it is used for: src/compliance/api-key.service.ts and
-- src/compliance/api-key-crypto.ts.
use ranking.Prelude.{
  ℕ, ◌≡◌, ◌⊎◌, refl, ◌&&◌, ◌||◌, not, map, is_empty, ◌∙◌, Bool, true, false, Option, none, some,
  List, [], ◌∷◌, ◌++◌, any, Bool-cases, inl, inr, arith, String, or_else, take,
}
use mathlib.Core.Option.{some_inj}
use ranking.Prelude.Keys.{string_key, ◌==◌}
use ranking.Prelude.Json.{Json, elements, to_elements}
use ranking.Prelude.Solid.{is_solid, trim_start-solid, trim_end-solid, trim-solid}
use ranking.Prelude.Texts.{
  Text, codes, text_key, is_space, trim_start, trim_end, trim, lower, text_beq_iff,
}
use ranking.Access.{
  Scope, same_scope, has_scope, unless_none, scope_named, known_scopes, Headers, Header, Tenant,
  ApiKey, Context, Answer, find_live, is_live, texts, authenticate_plaintext, authenticate_headers,
  extract_api_key_from_headers, bearer_token, token_after, after_prefix, is_line_end,
  parse_api_key_scopes, create_api_key,
}

any-line_end-solid : (t : Text) → is_solid t ≡ true → any is_line_end t ≡ false
unfolding is_line_end is_space
any-line_end-solid [] h = refl
any-line_end-solid (c ∷ t) h = ground (arith, any-line_end-solid t)

extract_key-solid :
    (c : ℕ) (t : Text) (other : Option Header)
    → is_solid (c ∷ t) ≡ true
    → extract_api_key_from_headers
        (record { x_api_key = some (Header.one (c ∷ t)); authorization = other })
      ≡ some (c ∷ t)
unfolding extract_api_key_from_headers
extract_key-solid c t other h = ground (arith, trim-solid (c ∷ t) h)

trim-bearer :
    (c : ℕ) (t : Text)
    → is_solid (c ∷ t) ≡ true
    → trim (codes "Bearer " ++ c ∷ t) ≡ codes "Bearer " ++ c ∷ t
unfolding trim_start trim_end is_space
trim-bearer c t h = rw (trim_end-solid (c ∷ t) h) refl

bearer_token-token_after :
    (c : ℕ) (t : Text)
    → is_solid (c ∷ t) ≡ true
    → bearer_token (codes "Bearer " ++ c ∷ t) ≡ token_after (codes " " ++ c ∷ t)
unfolding bearer_token after_prefix lower
bearer_token-token_after c t h = rw (bearer_token, trim-bearer c t h) refl

token_after-solid :
    (c : ℕ) (t : Text) → is_solid (c ∷ t) ≡ true → token_after (codes " " ++ c ∷ t) ≡ some (c ∷ t)
unfolding token_after is_space
token_after-solid c t h =
    ground
      (arith, trim_start-solid (c ∷ t) h, trim-solid (c ∷ t) h, any-line_end-solid (c ∷ t) h, space)
  where
    space : is_space 32 ≡ true
    space = refl

extract_bearer-solid :
    (c : ℕ) (t : Text)
    → is_solid (c ∷ t) ≡ true
    → extract_api_key_from_headers
        (record { x_api_key = none; authorization = some (Header.one (codes "Bearer " ++ c ∷ t)) })
      ≡ some (c ∷ t)
unfolding extract_api_key_from_headers
extract_bearer-solid c t h = bearer_token-token_after c t h ∙ token_after-solid c t h

abbrev pub name_of : Scope → String
name_of Scope.read = "read"
name_of Scope.write = "write"
name_of Scope.admin = "admin"

abbrev is_scope_name : String → Bool
is_scope_name n = n == "read" || (n == "write" || n == "admin")

-- The scope is granted: it was asked for by its name; all are, if none were given; and reading is, if no
-- name that was given is one of a scope.
abbrev pub is_asked : Option (List String) → Scope → Bool
is_asked none s = true
is_asked (some names) s =
    any (λ n. n == name_of s) names || (same_scope Scope.read s && not (any is_scope_name names))

abbrev names_scope : Option Scope → Scope → Bool
names_scope none s = false
names_scope (some t) s = same_scope t s

scope_named-name_of : (n : String) (s : Scope) → names_scope (scope_named n) s ≡ (n == name_of s)
scope_named-name_of n s = elim (Bool-cases (n == "read")) [
  | inl e ↦ rw ((string_key.same_iff n "read").0 e) (of_read s)
  | inr e ↦ elim (Bool-cases (n == "write")) [
    | inl f ↦ rw ((string_key.same_iff n "write").0 f) (of_write s)
    | inr f ↦ elim (Bool-cases (n == "admin")) [
      | inl g ↦ rw ((string_key.same_iff n "admin").0 g) (of_admin s)
      | inr g ↦ of_other e f g s
    ]
  ]
]
  where
    of_read : (s : Scope) → names_scope (scope_named "read") s ≡ ("read" == name_of s)
    of_read Scope.read = refl
    of_read Scope.write = refl
    of_read Scope.admin = refl

    of_write : (s : Scope) → names_scope (scope_named "write") s ≡ ("write" == name_of s)
    of_write Scope.read = refl
    of_write Scope.write = refl
    of_write Scope.admin = refl

    of_admin : (s : Scope) → names_scope (scope_named "admin") s ≡ ("admin" == name_of s)
    of_admin Scope.read = refl
    of_admin Scope.write = refl
    of_admin Scope.admin = refl

    of_other :
        (n == "read") ≡ false
        → (n == "write") ≡ false
        → (n == "admin") ≡ false
        → (s : Scope) → names_scope (scope_named n) s ≡ (n == name_of s)
    of_other e f g Scope.read = rw (e, f, g) refl
    of_other e f g Scope.write = rw (e, f, g) refl
    of_other e f g Scope.admin = rw (e, f, g) refl

module _ (F : Type 0) where
  abbrev scopes_of : List String → List Scope
  scopes_of names = known_scopes {F = F} (elements (to_elements (map Json.text names)))

  has_scope-scopes_of :
      (s : Scope) (names : List String)
      → has_scope (scopes_of names) s ≡ any (λ n. n == name_of s) names
  has_scope-scopes_of s [] = refl
  has_scope-scopes_of s (n ∷ names) =
      ground (arith, scope_named-name_of n s, has_scope-scopes_of s names)

  is_empty-scopes_of :
      (names : List String) → is_empty (scopes_of names) ≡ not (any is_scope_name names)
  is_empty-scopes_of [] = refl
  is_empty-scopes_of (n ∷ names) = ground (arith, is_empty-scopes_of names)

  has_scope-unless_none :
      (s : Scope) (scopes : List Scope)
      → has_scope (unless_none scopes) s
        ≡ (has_scope scopes s || (same_scope Scope.read s && is_empty scopes))
  has_scope-unless_none s [] = ground arith
  has_scope-unless_none s (t ∷ scopes) = ground arith

  -- What is stored of the scopes that were asked for grants them.
  parse_scopes-is_asked :
      (scopes : Option (List String)) (s : Scope)
      → has_scope
          (parse_api_key_scopes {F = F} (texts (or_else scopes ("read" ∷ "write" ∷ "admin" ∷ []))))
          s
        ≡ is_asked scopes s
  unfolding parse_api_key_scopes
  parse_scopes-is_asked none Scope.read = refl
  parse_scopes-is_asked none Scope.write = refl
  parse_scopes-is_asked none Scope.admin = refl
  parse_scopes-is_asked (some names) s = ground (
    arith,
    has_scope-unless_none s (scopes_of names),
    has_scope-scopes_of s names,
    is_empty-scopes_of names,
  )

-- The context of the requests that the key is used for.
abbrev pub context_for : ℕ → Tenant → Option Text → List Scope → Context
context_for id tenant label scopes = record {
  tenant_id = tenant.id;
  tenant_slug = tenant.slug;
  api_key_id = id;
  api_key_label = trim (or_else label []);
  scopes = scopes;
}

module _ {F : Type 0} (hash_api_key : Text → Text) where
  find_live-append :
      (keys : List (ApiKey F)) (k : ApiKey F) (h : Text)
      → any (λ j. j.key_hash == h) keys ≡ false
      → is_live h k ≡ true
      → find_live h (keys ++ k ∷ []) ≡ some k
  unfolding find_live
  find_live-append [] k h n l = ground arith
  find_live-append (j ∷ keys) k h n l = ground (arith, find_live-append keys k h)

  -- The row that `createApiKey` adds.
  abbrev created : ℕ → Tenant → Option Text → Option (List String) → Text → ApiKey F
  created id tenant label scopes plaintext = record {
    id = id;
    tenant = tenant;
    label = trim (or_else label []);
    key_prefix = take 12 plaintext;
    key_hash = hash_api_key plaintext;
    scopes = texts (or_else scopes ("read" ∷ "write" ∷ "admin" ∷ []));
    revoked_at = none;
    last_used_at = none;
  }

  module _ (id : ℕ) (tenant : Tenant) (label : Option Text) (scopes : Option (List String))
      (keys keys' : List (ApiKey F)) where
    abbrev granted : List Scope
    granted =
        parse_api_key_scopes {F = F} (texts (or_else scopes ("read" ∷ "write" ∷ "admin" ∷ [])))

    find_live-create :
        (token : Text)
        → create_api_key hash_api_key id tenant label scopes token keys ≡ some keys'
        → find_live (hash_api_key token) keys' ≡ some (created id tenant label scopes token)
    unfolding create_api_key
    find_live-create token e =
        elim (Bool-cases (any (λ k. k.key_hash == hash_api_key token) keys)) [
          | inl n ↦ absurd (ground arith)
          | inr n ↦
              let added : keys ++ created id tenant label scopes token ∷ [] ≡ keys' =
                some_inj.0 (ground arith) in
              rw (← added) (
                find_live-append keys (created id tenant label scopes token) (hash_api_key token) n
                  (ground (arith, text_beq_iff (hash_api_key token) (hash_api_key token))))
        ]

    authenticate-find :
        (auth_required : Bool) (now : ℕ) (token : Text) (headers : Headers)
        → extract_api_key_from_headers headers ≡ some token
        → find_live (hash_api_key token) keys' ≡ some (created id tenant label scopes token)
        → (authenticate_headers hash_api_key auth_required now keys' headers).1
          ≡ Answer.granted (some (context_for id tenant label granted))
    unfolding authenticate_headers authenticate_plaintext
    authenticate-find auth_required now token headers e f = ground arith

    -- A key that `createApiKey` has added is accepted, in either of the two headers, whether keys are
    -- required or not: the context of the request has its id, its tenant, its trimmed label and
    -- exactly the scopes that were asked for: all three by default, and that to read if no name that was
    -- given is one of a scope. The plaintext has a character and no white space.
    pub authenticate-create :
        (auth_required : Bool) (now c : ℕ) (t : Text) (headers : Headers)
        → is_solid (c ∷ t) ≡ true
        → create_api_key hash_api_key id tenant label scopes (c ∷ t) keys ≡ some keys'
        → (headers ≡ record { x_api_key = some (Header.one (c ∷ t)); authorization = none })
          ⊎ (headers ≡ record {
            x_api_key = none;
            authorization = some (Header.one (codes "Bearer " ++ c ∷ t));
          })
        → (granted : List Scope) × ((authenticate_headers hash_api_key auth_required now keys'
              headers).1
            ≡ Answer.granted (some (context_for id tenant label granted)))
          × ((s : Scope) → has_scope granted s ≡ is_asked scopes s)
    authenticate-create auth_required now c t headers h e (inl w) = (
      granted,
      authenticate-find auth_required now (c ∷ t) headers (rw w (extract_key-solid c t none h))
          (find_live-create (c ∷ t) e),
      parse_scopes-is_asked F scopes,
    )
    authenticate-create auth_required now c t headers h e (inr w) = (
      granted,
      authenticate-find auth_required now (c ∷ t) headers (rw w (extract_bearer-solid c t h))
          (find_live-create (c ∷ t) e),
      parse_scopes-is_asked F scopes,
    )
