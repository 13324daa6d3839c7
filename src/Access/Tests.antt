-- ===== src/Access/Tests.antt =====
-- Examples for the guard, the keys, the tenants and the redaction, with a digest that puts a character
-- in front.
use ranking.Prelude.{
  ℕ, ◌≡◌, refl, ◌↔◌, ◌⊎◌, inl, inr, Bool, true, false, Option, none, some, List, [], ◌∷◌, ◌++◌,
  String,
}
use ranking.Prelude.Texts.{Text, codes}
use ranking.Prelude.Json.{Json, Fields}
use ranking.Access.{
  Scope, has_scope, Headers, Header, Tenant, ApiKey, Context, Denial, Answer, texts,
  authenticate_headers,
}
use ranking.Access.Guard.{Environment, Route, Request, can_activate}
use ranking.Access.Admission.{is_granted, IsAdmitted, can_activate_iff}
use ranking.Access.Keys.{context_for, is_asked, authenticate-create}
use ranking.Access.Tenants.{
  topic_where_for_auth, assert_topic_accessible, tenant_of, accessible_iff_listed,
}
use ranking.Access.Redaction.{
  PiiLevel, EntityRow, redact_canonical_name, redact_entity_record, redact_entity_record_blind,
}

abbrev digest : Text → Text
digest t = b'#' ∷ t

abbrev tenant : Tenant
tenant = record { id = 3; slug = "acme"; name = "Acme" }

abbrev key : ℕ → String → List String → Option ℕ → ApiKey ℕ
key id plaintext scopes revoked_at = record {
  id = id;
  tenant = tenant;
  label = codes "ci";
  key_prefix = codes plaintext;
  key_hash = digest (codes plaintext);
  scopes = texts scopes;
  revoked_at = revoked_at;
  last_used_at = none;
}

abbrev keys : List (ApiKey ℕ)
keys =
    key 1 "rk_a" ("read" ∷ []) none
    ∷ key 2 "rk_b" ("read" ∷ "write" ∷ []) none
    ∷ key 4 "rk_c" ("admin" ∷ []) (some 50)
    ∷ []

abbrev env : Environment
env = record { auth_required = true; admin_not_closed = true }

abbrev route : Route
route = record { is_public = false; required = [] }

abbrev post : String → Request
post token = record {
  path = codes "/v1/rankings/run";
  method = some (codes "post");
  headers = record { x_api_key = some (Header.one (codes token)); authorization = none };
}

abbrev run : Request → List (ApiKey ℕ) × Answer (Option Context)
run req = can_activate digest env route 100 keys req

-- A key that may write passes, one that may only read does not, nor a revoked one.
write_passes : is_granted (run (post " rk_b ")) ≡ true
unfolding can_activate ranking.Prelude.Texts.trim_end ranking.Prelude.Texts.trim_start
    ranking.Prelude.Texts.upper ranking.Access.parse_api_key_scopes
write_passes = refl

read_fails : (run (post "rk_a")).1 ≡ Answer.denied Denial.write_scope_required
unfolding can_activate ranking.Prelude.Texts.trim_end ranking.Prelude.Texts.trim_start
    ranking.Prelude.Texts.upper ranking.Access.parse_api_key_scopes
read_fails = refl

revoked_fails : (run (post "rk_c")).1 ≡ Answer.denied Denial.invalid_key
unfolding can_activate ranking.Prelude.Texts.trim_end ranking.Prelude.Texts.trim_start
revoked_fails = refl

can_activate_iff_example :
    (is_granted (run (post "rk_b")) ≡ true) ↔ IsAdmitted digest route (post "rk_b") keys
can_activate_iff_example =
    can_activate_iff digest env route 100 keys (post "rk_b") refl (refl, (refl, (refl, tt)))

abbrev bearer : Headers
bearer = record { x_api_key = none; authorization = some (Header.one (codes "Bearer rk_d")) }

authenticate-create_example :
    (granted : List Scope) × ((authenticate_headers digest true 100
        (keys ++ key 5 "rk_d" ("read" ∷ []) none ∷ [])
        bearer).1
      ≡ Answer.granted (some (context_for 5 tenant (some (codes "ci")) granted)))
    × ((s : Scope) → has_scope granted s ≡ is_asked (some ("read" ∷ [])) s)
unfolding ranking.Access.create_api_key ranking.Prelude.Texts.is_space
    ranking.Prelude.Texts.trim_end ranking.Prelude.Texts.trim_start
authenticate-create_example =
    authenticate-create digest 5 tenant (some (codes "ci")) (some ("read" ∷ [])) keys
      (keys ++ key 5 "rk_d" ("read" ∷ []) none ∷ []) true 100 b'r' (codes "k_d") bearer refl refl
      (inr refl)

abbrev auth : Option Context
auth = some (context_for 5 tenant none (Scope.read ∷ Scope.write ∷ Scope.admin ∷ []))

accessible_iff_listed_example :
    ((assert_topic_accessible (some none) auth ≡ true)
      ↔ ((topic_where_for_auth auth none ≡ true) ⊎ ◌≡◌ {A = Option ℕ} none none))
    × ((t u : ℕ)
        → tenant_of auth ≡ some t
        → ◌≡◌ {A = Option ℕ} none (some u)
        → assert_topic_accessible (some none) auth ≡ true
        → u ≡ t)
accessible_iff_listed_example = accessible_iff_listed auth none

abbrev person : String → List (Json ℕ) → EntityRow ℕ
person name aliases = record {
  canonical_name = codes name;
  pii_level = some PiiLevel.high;
  aliases = some (Json.array (ranking.Prelude.Json.to_elements aliases));
  others = Fields.field "id" (Json.text "7") Fields.closed;
}

hidden : redact_canonical_name (codes "Alice") PiiLevel.high (Scope.read ∷ []) ≡ codes "A****"
unfolding redact_canonical_name
hidden = refl

redact_entity_record_blind_example :
    (redact_entity_record (person "Alice" (Json.text "Al" ∷ [])) (Scope.write ∷ [])
      ≡ redact_entity_record (person "Anton" (Json.text "Toni" ∷ [])) (Scope.write ∷ []))
    × ((redact_entity_record (person "Alice" (Json.text "Al" ∷ [])) (Scope.write ∷ [])).others
        ≡ (person "Alice" (Json.text "Al" ∷ [])).others)
unfolding ranking.Access.Redaction.can_view_high_pii
redact_entity_record_blind_example =
    redact_entity_record_blind (person "Alice" (Json.text "Al" ∷ []))
      (person "Anton" (Json.text "Toni" ∷ [])) (Scope.write ∷ []) refl refl refl refl refl refl refl
