-- ===== src/Crawl/Address.antt =====
-- Addresses that the crawler may request: `crawlUrlViolation` of src/ingestion/http-fetch.ts,
-- `isLinkHostAllowed` of src/ingestion/crawl-link-extract.ts and `urlFingerprint` of
-- src/ingestion/crawl-job.ts.
use ranking.Prelude.{
  Bool, false, ◌&&◌, ◌||◌, Option, none, some, List, [], ◌∷◌, leb, nat_beq, any, or_else,
  if◌then◌else◌, not,
}
use ranking.Prelude.Keys.{◌==◌}
use ranking.Prelude.Texts.{Text, codes, text_key, starts_with, to_lower}

-- What `new URL` reads from a text.
pub record Address : Type 0 where
  pub protocol : Text
  pub hostname : Text
  pub pathname : Text

pub data Violation : Type 0 where
  invalid_url only_http blocked_hostname blocked_link_local blocked_private : Violation

abbrev pub blocked_hostnames : List Text
blocked_hostnames =
    codes "localhost"
    ∷ codes "0.0.0.0"
    ∷ codes "127.0.0.1"
    ∷ codes "::1"
    ∷ codes "metadata.google.internal"
    ∷ []

-- `s.endsWith(p)`.
abbrev pub ends_with : Text → Text → Bool
ends_with [] p = [] == p
ends_with (c ∷ s) p = (c ∷ s) == p || ends_with s p

-- `(1[6-9]|2\d|3[01])\.` at the start of a text.
abbrev pub is_16_to_31 : Text → Bool
is_16_to_31 (a ∷ b ∷ c ∷ s) =
    nat_beq c b'.'
    && ((nat_beq a b'1' && (leb b'6' b && leb b b'9'))
        || ((nat_beq a b'2' && (leb b'0' b && leb b b'9'))
            || (nat_beq a b'3' && (leb b'0' b && leb b b'1'))))
is_16_to_31 _ = false

abbrev pub is_private_172 : Text → Bool
is_private_172 (a ∷ b ∷ c ∷ d ∷ s) = (a ∷ b ∷ c ∷ d ∷ []) == codes "172." && is_16_to_31 s
is_private_172 _ = false

abbrev pub violation_of : Text → Text → Option Violation
violation_of protocol host =
    if not (protocol == codes "http:") && not (protocol == codes "https:")
    then some Violation.only_http
    else if any (λ h. h == host) blocked_hostnames
        || (ends_with host (codes ".local") || ends_with host (codes ".localhost"))
    then some Violation.blocked_hostname
    else if any (starts_with host)
        (codes "127." ∷ codes "10." ∷ codes "192.168." ∷ codes "169.254." ∷ [])
    then some Violation.blocked_link_local
    else if is_private_172 host
    then some Violation.blocked_private
    else none

-- None as an address is the exception of `new URL`.
unfoldable pub crawl_url_violation : Option Address → Option Violation
crawl_url_violation none = some Violation.invalid_url
crawl_url_violation (some a) = violation_of a.protocol (to_lower a.hostname)

unfoldable pub is_link_host_allowed : Option Address → List Text → Bool
is_link_host_allowed none allow_hosts = false
is_link_host_allowed (some a) allow_hosts = any (λ h. h == to_lower a.hostname) allow_hosts

-- The digest of the address without its fragment and its tracking parameters, as `new URL` and
-- `searchParams` give it, or of the text itself.
unfoldable pub url_fingerprint : (Text → Text) → (Text → Option Text) → Text → Text
url_fingerprint sha256 canonical url = sha256 (or_else (canonical url) url)
