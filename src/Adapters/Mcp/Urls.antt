-- ===== src/Adapters/Mcp/Urls.antt =====
-- `validateUrlBinding` of adapters/mcp/elicitation.ts and its tests. The parse of a URL is the
-- platform's, and gives its parts; upper and lower case differ where ASCII is concerned.
use pausemesh.Prelude.{
  ℕ, ◌+◌, Bool, true, false, not, ◌&&◌, ◌||◌, Option, none, some, List, [], ◌∷◌, Result, ok, err,
  ◌>>=◌, ◌>>◌, length, all, leb, ◌==◌, if◌then◌else◌,
}
use pausemesh.Prelude.Text.{Text, codes, text_eq}
use pausemesh.Storage.Numerals.{read_nat}
use pausemesh.Adapters.Protocol.{ProtocolAdapterErrorCode, invalid_protocol_binding, require}

pub record Url : Type 0 where
  pub protocol : Text
  pub username : Text
  pub password : Text
  pub hash : Text
  pub hostname : Text
  -- `[...searchParams.keys()]`
  pub search_keys : List Text

pub record McpUrlBinding : Type 0 where
  pub elicitation_id : Text
  pub url : Text

-- What a call of the host's validator does.
pub data UrlVerdict : Type 0 where
  attested rejected failed : UrlVerdict
  failed_with : ProtocolAdapterErrorCode → UrlVerdict

pub record McpProjectionPolicy : Type 0 where
  pub allow_insecure_loopback_http : Option Bool
  pub validate_authorization_url : Option (Url → UrlVerdict)

-- The letters that lower case takes to ASCII: the capitals, the Kelvin sign and a dotted I.
lower : ℕ → Text → Text
lower c rest =
    if leb b'A' c && leb c b'Z'
    then (c + 32) ∷ rest
    else if c == 0x212a
    then b'k' ∷ rest
    else if c == 0x130
    then b'i' ∷ 0x307 ∷ rest
    else c ∷ rest

-- `text.toLowerCase()`
unfoldable pub to_lower : Text → Text
unfolding lower
to_lower [] = []
to_lower (c ∷ t) = lower c (to_lower t)

starts_with : Text → Text → Bool
starts_with [] text = true
starts_with (c ∷ prefix) [] = false
starts_with (c ∷ prefix) (d ∷ text) = (c == d) && starts_with prefix text

-- `text.includes(part)`
unfoldable pub includes : Text → Text → Bool
unfolding starts_with
includes part [] = starts_with part []
includes part (c ∷ text) = starts_with part (c ∷ text) || includes part text

-- `text.endsWith(suffix)`
unfoldable pub ends_with : Text → Text → Bool
ends_with suffix [] = text_eq suffix []
ends_with suffix (c ∷ text) = text_eq suffix (c ∷ text) || ends_with suffix text

first_part : ℕ → List Text → List Text
first_part c [] = (c ∷ []) ∷ []
first_part c (part ∷ parts) = (c ∷ part) ∷ parts

-- `text.split(".")`
unfoldable pub split : Text → List Text
unfolding first_part
split [] = [] ∷ []
split (c ∷ text) = let rest = split text in if c == b'.' then [] ∷ rest else first_part c rest

abbrev is_digit : ℕ → Bool
is_digit c = leb b'0' c && leb c b'9'

within : ℕ → Option ℕ → Bool
within most none = false
within most (some n) = leb n most

is_number : ℕ → Option ℕ → Bool
is_number n none = false
is_number n (some m) = m == n

-- `/^\d{1,3}$/.test(octet) && Number(octet) <= 255`
unfoldable pub is_octet : Text → Bool
unfolding within
is_octet octet =
    leb 1 (length octet)
    && (leb (length octet) 3 && (all is_digit octet && within 255 (read_nat octet)))

unfoldable pub is_loopback_address : List Text → Bool
unfolding is_number
is_loopback_address (a ∷ b ∷ c ∷ d ∷ []) =
    all is_octet (a ∷ b ∷ c ∷ d ∷ []) && is_number 127 (read_nat a)
is_loopback_address _ = false

unfoldable pub is_loopback_hostname : Text → Bool
is_loopback_hostname hostname =
    let normalized = to_lower hostname in
    text_eq normalized (codes "localhost")
    || (ends_with (codes ".localhost") normalized
        || (text_eq normalized (codes "::1")
            || (text_eq normalized (codes "[::1]") || is_loopback_address (split normalized))))

-- `.replace(/[^a-z\d]/g, "")`
unfoldable pub letters_and_digits : Text → Text
letters_and_digits [] = []
letters_and_digits (c ∷ t) =
    let rest = letters_and_digits t in
    if (leb b'a' c && leb c b'z') || is_digit c then c ∷ rest else rest

unfoldable pub any {ℓ} : {A : Type ℓ} → (A → Bool) → List A → Bool
any p [] = false
any p (x ∷ xs) = p x || any p xs

abbrev pub sensitive_names : List Text
sensitive_names =
    codes "token"
    ∷ codes "auth"
    ∷ codes "code"
    ∷ codes "jwt"
    ∷ codes "session"
    ∷ codes "sig"
    ∷ codes "ticket"
    ∷ []

abbrev pub sensitive_parts : List Text
sensitive_parts =
    codes "accesstoken"
    ∷ codes "authtoken"
    ∷ codes "assertion"
    ∷ codes "authorization"
    ∷ codes "bearer"
    ∷ codes "credential"
    ∷ codes "idtoken"
    ∷ codes "apikey"
    ∷ codes "password"
    ∷ codes "passwd"
    ∷ codes "privatekey"
    ∷ codes "refreshtoken"
    ∷ codes "secret"
    ∷ codes "sessionid"
    ∷ codes "signature"
    ∷ []

unfoldable pub is_sensitive_query_parameter : Text → Bool
unfolding letters_and_digits any includes
is_sensitive_query_parameter name =
    let normalized = letters_and_digits (to_lower name) in
    any (λ n. text_eq normalized n) sensitive_names
    || any (λ p. includes p normalized) sensitive_parts

abbrev pub is_allowed : Option Bool → Bool
is_allowed none = false
is_allowed (some b) = b

-- HTTPS, or HTTP to a loopback host where the policy allows it.
abbrev pub is_trusted_transport : McpProjectionPolicy → Url → Bool
is_trusted_transport policy url =
    text_eq url.protocol (codes "https:")
    || (text_eq url.protocol (codes "http:")
        && (is_allowed policy.allow_insecure_loopback_http && is_loopback_hostname url.hostname))

abbrev pub verdict_of : UrlVerdict → Result ProtocolAdapterErrorCode (Unit {0})
verdict_of attested = ok tt
verdict_of rejected = err invalid_protocol_binding
verdict_of failed = err invalid_protocol_binding
verdict_of (failed_with code) = err code

-- The call of the validator, on a copy of the URL.
unfoldable pub attest : Option (Url → UrlVerdict) → Url → Result ProtocolAdapterErrorCode (Unit {0})
attest none url = err invalid_protocol_binding
attest (some validator) url = verdict_of (validator url)

abbrev is_empty : Text → Bool
is_empty text = length text == 0

unfoldable pub parsed_or : Option Url → Result ProtocolAdapterErrorCode Url
parsed_or none = err invalid_protocol_binding
parsed_or (some url) = ok url

module _ (parse_url : Text → Option Url) where
  unfoldable pub validate_url_binding :
      McpUrlBinding → McpProjectionPolicy → Result ProtocolAdapterErrorCode (Unit {0})
  validate_url_binding binding policy = do
    parsed ← parsed_or (parse_url binding.url)
    require (is_empty parsed.username && is_empty parsed.password) invalid_protocol_binding
    require (is_empty parsed.hash) invalid_protocol_binding
    require (not (any is_sensitive_query_parameter parsed.search_keys)) invalid_protocol_binding
    require (is_trusted_transport policy parsed) invalid_protocol_binding
    attest policy.validate_authorization_url parsed
