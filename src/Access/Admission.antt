-- ===== src/Access/Admission.antt =====
-- Who passes `ApiKeyGuard` of src/compliance/api-key.guard.ts, and the life of a key from
-- `createApiKey` to the request that it is used for.
use ranking.Prelude.{
  ℕ, ◌≡◌, refl, sym, ap, ◌∙◌, ◌↔◌, ◌⊎◌, inl, inr, Bool, true, false, ◌&&◌, ◌||◌, not, Option, some,
  List, [], ◌∷◌, any, Bool-cases, Option-cases, arith,
}
use mathlib.Core.List.{Memᴰ}
use mathlib.Core.Option.{some_inj}
use ranking.Prelude.Keys.{◌==◌}
use ranking.Prelude.Texts.{Text, codes, text_key, starts_with, text_beq_iff}
use ranking.Prelude.Json.{Json, elements}
use ranking.Access.{
  Scope, has_scope, ApiKey, Answer, is_live, find_live, context_of, touch, unless_none,
  known_scopes, authenticate_plaintext, authenticate_headers, extract_api_key_from_headers,
  parse_api_key_scopes,
}
use ranking.Access.Guard.{
  Environment, Route, Request, is_always_public_path, is_write, has_any, check_scopes, can_activate,
  v1_read_scopes, enforce_v1_scopes,
}

abbrev pub is_granted {ℓ} : {A : Type 0} {K : Type ℓ} → K × Answer A → Bool
is_granted (k, Answer.granted a) = true
is_granted (k, Answer.denied r) = false

-- What the scopes of a key must be: one of the required ones, or, if the route requires none, enough
-- for a writing request under /v1/.
abbrev pub suffices : List Scope → Request → List Scope → Bool
suffices (s ∷ required) req scopes = has_any (s ∷ required) scopes
suffices [] req scopes =
    not (starts_with req.path (codes "/v1/") && is_write req.method)
    || (has_scope scopes Scope.write || has_scope scopes Scope.admin)

-- Every parsed list has a scope.
has_any-read : (s : Scope) (scopes : List Scope) → has_any v1_read_scopes (s ∷ scopes) ≡ true
has_any-read Scope.read scopes = refl
has_any-read Scope.write scopes = ground arith
has_any-read Scope.admin scopes = ground arith

has_any-unless_none : (scopes : List Scope) → has_any v1_read_scopes (unless_none scopes) ≡ true
has_any-unless_none [] = refl
has_any-unless_none (s ∷ scopes) = has_any-read s scopes

module _ {F : Type 0} where
  -- No two rows have the same hash: the column is unique.
  abbrev pub IsUnique : List (ApiKey F) → Type 0
  IsUnique [] = Unit
  IsUnique (k ∷ keys) = (any (λ j. j.key_hash == k.key_hash) keys ≡ false) × IsUnique keys

  found_live :
      (h : Text) (keys : List (ApiKey F)) (k : ApiKey F)
      → find_live h keys ≡ some k
      → Memᴰ k keys × (is_live h k ≡ true)
  unfolding find_live
  found_live h [] k e = absurd (cc)
  found_live h (j ∷ keys) k e = elim (Bool-cases (is_live h j)) [
    | inl l ↦
        let e' : some j ≡ some k = cc in (Memᴰ.head (sym (some_inj.0 e')), rw (← some_inj.0 e') l)
    | inr l ↦
        let below : Memᴰ k keys × (is_live h k ≡ true) = found_live h keys k (ground arith) in
        (Memᴰ.tail below.0, below.1)
  ]

  no_other :
      (h : Text) (j k : ApiKey F) (keys : List (ApiKey F))
      → any (λ i. i.key_hash == j.key_hash) keys ≡ false
      → Memᴰ k keys
      → is_live h k ≡ true
      → is_live h j ≡ false
  no_other h j k (i ∷ keys) e (Memᴰ.head p) l =
      let l' : is_live h i ≡ true = rw (← p) l in
      ground (
        arith,
        text_beq_iff i.key_hash j.key_hash,
        text_beq_iff i.key_hash h,
        text_beq_iff j.key_hash h,
      )
  no_other h j k [] e m l = elim m [ ]
  no_other h j k (i ∷ keys) e (Memᴰ.tail m) l = no_other h j k keys (ground arith) m l

  live_found :
      (h : Text) (keys : List (ApiKey F)) (k : ApiKey F)
      → IsUnique keys
      → Memᴰ k keys
      → is_live h k ≡ true
      → find_live h keys ≡ some k
  unfolding find_live
  live_found h (j ∷ keys) k u (Memᴰ.head e) l =
      let l' : is_live h j ≡ true = rw (← e) l in ground (arith, ap {B = Option (ApiKey F)} some e)
  live_found h [] k u m l = elim m [ ]
  live_found h (j ∷ keys) k u (Memᴰ.tail m) l =
      ground (arith, no_other h j k keys u.0 m l, live_found h keys k u.1 m l)

  has_any-parse : (x : Json F) → has_any v1_read_scopes (parse_api_key_scopes x) ≡ true
  unfolding parse_api_key_scopes
  has_any-parse (Json.array xs) = has_any-unless_none (known_scopes (elements xs))
  has_any-parse Json.null = refl
  has_any-parse (Json.flag b) = refl
  has_any-parse (Json.number x) = refl
  has_any-parse (Json.text s) = refl
  has_any-parse (Json.object xs) = refl

  check_scopes-suffices :
      (env : Environment) (required : List Scope) (req : Request) (k : ApiKey F)
      (keys : List (ApiKey F))
      → env.auth_required ≡ true
      → is_always_public_path req.path ≡ false
      → is_granted (keys, check_scopes env required req (some (context_of k)))
        ≡ suffices required req (parse_api_key_scopes k.scopes)
  unfolding check_scopes enforce_v1_scopes
  check_scopes-suffices env [] req k keys a p = ground (arith, has_any-parse k.scopes)
  check_scopes-suffices env (s ∷ required) req k keys a p = ground arith

  -- The request comes with the token of a key that is in the table, is not revoked and suffices.
  abbrev pub IsKeyed : (Text → Text) → Route → Request → List (ApiKey F) → ApiKey F → Type 0
  IsKeyed hash_api_key route req keys k =
      (token : Text) × (extract_api_key_from_headers req.headers ≡ some token)
      × Memᴰ k keys
      × (is_live (hash_api_key token) k ≡ true)
      × (suffices route.required req (parse_api_key_scopes k.scopes) ≡ true)

  abbrev pub IsAdmitted : (Text → Text) → Route → Request → List (ApiKey F) → Type 0
  IsAdmitted hash_api_key route req keys =
      (route.is_public ≡ true)
      ⊎ ((is_always_public_path req.path ≡ true)
          ⊎ ((k : ApiKey F) × IsKeyed hash_api_key route req keys k))

  module _ (hash_api_key : Text → Text) (env : Environment) (route : Route) (now : ℕ)
      (keys : List (ApiKey F)) (req : Request) (required : env.auth_required ≡ true) where
    granted_with :
        (token : Text) (k : ApiKey F)
        → (route.is_public || is_always_public_path req.path) ≡ false
        → extract_api_key_from_headers req.headers ≡ some token
        → find_live (hash_api_key token) keys ≡ some k
        → is_granted (can_activate hash_api_key env route now keys req)
          ≡ suffices route.required req (parse_api_key_scopes k.scopes)
    unfolding can_activate authenticate_headers authenticate_plaintext
    granted_with token k p e f =
        ground
          (arith, check_scopes-suffices env route.required req k (touch k.id now keys) required)

    granted-IsKeyed :
        (route.is_public || is_always_public_path req.path) ≡ false
        → is_granted (can_activate hash_api_key env route now keys req) ≡ true
        → (k : ApiKey F) × IsKeyed hash_api_key route req keys k
    unfolding can_activate authenticate_headers authenticate_plaintext
    granted-IsKeyed p g = elim (Option-cases (extract_api_key_from_headers req.headers)) [
      | inl e ↦ absurd (ground arith)
      | inr (token, e) ↦ elim (Option-cases (find_live (hash_api_key token) keys)) [
        | inl f ↦ absurd (ground arith)
        | inr (k, f) ↦
            let found : Memᴰ k keys × (is_live (hash_api_key token) k ≡ true) =
              found_live (hash_api_key token) keys k f in
            (k, (token, e, found.0, found.1, sym (granted_with token k p e f) ∙ g))
      ]
    ]

    open_granted :
        (route.is_public || is_always_public_path req.path) ≡ true
        → is_granted (can_activate hash_api_key env route now keys req) ≡ true
    unfolding can_activate
    open_granted p = rw p refl

    -- With API_AUTH_REQUIRED on, the guard lets a request pass exactly if its route or its path is
    -- public, or it brings the token of a key of the table that is not revoked and whose scopes suffice:
    -- they have one of the scopes that the route requires or, if it requires none, `write` or `admin`
    -- for a writing request under /v1/. No two keys have the same hash.
    pub can_activate_iff :
        IsUnique keys
        → (is_granted (can_activate hash_api_key env route now keys req) ≡ true)
          ↔ IsAdmitted hash_api_key route req keys
    can_activate_iff u = (forth, back)
      where
        forth :
            is_granted (can_activate hash_api_key env route now keys req) ≡ true
            → IsAdmitted hash_api_key route req keys
        forth g = elim (Bool-cases route.is_public) [
          | inl p ↦ inl p
          | inr p ↦ elim (Bool-cases (is_always_public_path req.path)) [
            | inl q ↦ inr (inl q)
            | inr q ↦ inr (inr (granted-IsKeyed (ground arith) g))
          ]
        ]

        back :
            IsAdmitted hash_api_key route req keys
            → is_granted (can_activate hash_api_key env route now keys req) ≡ true
        back (inl p) = open_granted (ground arith)
        back (inr (inl q)) = open_granted (ground arith)
        back (inr (inr (k, (token, e, m, l, s)))) =
            elim (Bool-cases (route.is_public || is_always_public_path req.path)) [
              | inl p ↦ open_granted p
              | inr p ↦ granted_with token k p e (live_found (hash_api_key token) keys k u m l) ∙ s
            ]
