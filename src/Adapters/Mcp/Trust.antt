-- ===== src/Adapters/Mcp/Trust.antt =====
-- Which URLs a client may be sent to, by adapters/mcp/elicitation.ts.
use mathlib.Core.Bool.{and-eq-true_iff}
use pausemesh.Prelude.{
  ◌≡◌, refl, Bool, true, false, not, ◌&&◌, ◌||◌, Option, none, some, List, [], ◌∷◌, All, ok,
  >>=-eq-ok, length, ◌==◌, ◌↔◌, ◌⊎◌, inl, inr, Bool-cases, arith,
}
use pausemesh.Prelude.Text.{Text, codes, text_eq, text_eq_iff}
use pausemesh.Adapters.Protocol.{require, require-ok}
use pausemesh.Adapters.Mcp.Urls.{
  McpProjectionPolicy, McpUrlBinding, Url, UrlVerdict, any, attest, attested, failed, failed_with,
  is_loopback_hostname, is_sensitive_query_parameter, is_trusted_transport, parsed_or, rejected,
  verdict_of, validate_url_binding,
}

unfoldable pub IsPlain : Text → Type 0
IsPlain key = is_sensitive_query_parameter key ≡ false

-- A URL without credentials and without a fragment, reached by HTTPS, or by HTTP on a loopback host
-- where the policy says so, that the host's validator attests.
pub record IsTrusted (policy : McpProjectionPolicy) (url : Url) : Type 0 where
  pub no_username : url.username ≡ []
  pub no_password : url.password ≡ []
  pub no_fragment : url.hash ≡ []
  pub no_credentials : All IsPlain url.search_keys
  pub transport :
      (url.protocol ≡ codes "https:")
      ⊎ ((url.protocol ≡ codes "http:")
          × (policy.allow_insecure_loopback_http ≡ some true)
          × (is_loopback_hostname url.hostname ≡ true))
  pub validator : Url → UrlVerdict
  pub given : policy.validate_authorization_url ≡ some validator
  pub vouched : validator url ≡ attested

or-true : (a : Bool) {b : Bool} → b ≡ true → (a || b) ≡ true
or-true a h = ground arith

empty_iff : (t : Text) → ((length t == 0) ≡ true) ↔ (t ≡ [])
empty_iff [] = (λ h. refl, λ h. refl)
empty_iff (c ∷ t) = (λ h. absurd (ground arith), λ h. absurd (cc h))

IsPlain-iff :
    (names : List Text) → (any is_sensitive_query_parameter names ≡ false) ↔ All IsPlain names
unfolding any IsPlain
IsPlain-iff [] = (λ h. tt, λ h. refl)
IsPlain-iff (n ∷ names) =
    let (to, from) = IsPlain-iff names in
    (λ h. (ground arith, to (ground arith)), λ (p, rest). rw (p, from rest) refl)

is_allowed_iff :
    (o : Option Bool) (rest : Bool)
    → ((elim o [ none ↦ false | some b ↦ b ]) && rest ≡ true) ↔ ((o ≡ some true) × (rest ≡ true))
is_allowed_iff none rest = (λ h. absurd (cc h), λ (e, r). absurd (cc e))
is_allowed_iff (some b) rest =
    (λ h. ground arith, λ (e, r). let same : b ≡ true = cc e in rw (same, r) refl)

transport_iff :
    (policy : McpProjectionPolicy) (url : Url)
    → (is_trusted_transport policy url ≡ true) ↔ (
        (url.protocol ≡ codes "https:")
        ⊎ ((url.protocol ≡ codes "http:")
            × (policy.allow_insecure_loopback_http ≡ some true)
            × (is_loopback_hostname url.hostname ≡ true)))
transport_iff policy url =
    let (https_to, https_from) = text_eq_iff url.protocol (codes "https:") in
    let (http_to, http_from) = text_eq_iff url.protocol (codes "http:") in
    let (to, from) =
      is_allowed_iff policy.allow_insecure_loopback_http (is_loopback_hostname url.hostname) in
    (
      λ h. elim (Bool-cases (text_eq url.protocol (codes "https:"))) [
        | inl secure ↦ inl (https_to secure)
        | inr other ↦
            let (plain, rest) = (and-eq-true_iff _ _).0 (rw other at h) in
            let (permitted, loopback) = to rest in inr (http_to plain, permitted, loopback)
      ],
      λ h. elim h [
        | inl secure ↦ rw (https_from secure) refl
        | inr (plain, permitted, loopback) ↦
            let second =
              (and-eq-true_iff (text_eq url.protocol (codes "http:")) _).1
                (http_from plain, from (permitted, loopback)) in
            or-true (text_eq url.protocol (codes "https:")) second
      ],
    )

verdict_iff : (v : UrlVerdict) → (verdict_of v ≡ ok tt) ↔ (v ≡ attested)
verdict_iff attested = (λ h. refl, λ h. refl)
verdict_iff rejected = (λ h. absurd (cc h), λ h. absurd (cc h))
verdict_iff failed = (λ h. absurd (cc h), λ h. absurd (cc h))
verdict_iff (failed_with code) = (λ h. absurd (cc h), λ h. absurd (cc h))

attest_iff :
    (o : Option (Url → UrlVerdict)) (url : Url)
    → (attest o url ≡ ok tt)
      ↔ ((validator : Url → UrlVerdict) × (o ≡ some validator) × (validator url ≡ attested))
unfolding attest
attest_iff none url = (λ h. absurd (cc h), λ (v, e, h). absurd (cc e))
attest_iff (some validator) url = (
  λ h. (validator, refl, (verdict_iff (validator url)).0 h),
  λ (v, e, h). let same : validator ≡ v = cc e in (verdict_iff (validator url)).1 (rw same h),
)

module _ (parse_url : Text → Option Url) (policy : McpProjectionPolicy) where
  from_parsed :
      (binding : McpUrlBinding) (url : Url)
      → parse_url binding.url ≡ some url
      → IsTrusted policy url
      → validate_url_binding parse_url binding policy ≡ ok tt
  unfolding validate_url_binding parsed_or
  from_parsed binding url parsed t =
      rw
        (
          parsed,
          (empty_iff url.username).1 t.no_username,
          (empty_iff url.password).1 t.no_password,
          (empty_iff url.hash).1 t.no_fragment,
          (IsPlain-iff url.search_keys).1 t.no_credentials,
          (transport_iff policy url).1 t.transport,
        )
        ((attest_iff policy.validate_authorization_url url).1 (t.validator, t.given, t.vouched))

  parsed_or-ok : (o : Option Url) {url : Url} → parsed_or o ≡ ok url → o ≡ some url
  unfolding parsed_or
  parsed_or-ok none h = absurd (cc h)
  parsed_or-ok (some u) h = ground arith

  -- A URL is accepted if and only if it parses to one that has no credentials in its authority or
  -- its parameters and no fragment, is reached by HTTPS, or by HTTP on a loopback host where the
  -- policy allows that, and is attested by the host's validator.
  pub validate_url_binding_iff :
      (binding : McpUrlBinding)
      → (validate_url_binding parse_url binding policy ≡ ok tt)
        ↔ ((url : Url) × (parse_url binding.url ≡ some url) × IsTrusted policy url)
  unfolding validate_url_binding
  validate_url_binding_iff binding = (
    λ h.
        let (url, hp, h1) = >>=-eq-ok (parsed_or (parse_url binding.url)) _ h in
        let (_, ha, h2) =
          >>=-eq-ok (require ((length url.username == 0) && (length url.password == 0)) _) _ h1 in
        let (_, hf, h3) = >>=-eq-ok (require (length url.hash == 0) _) _ h2 in
        let (_, hq, h4) =
          >>=-eq-ok (require (not (any is_sensitive_query_parameter url.search_keys)) _) _ h3 in
        let (_, ht, h5) = >>=-eq-ok (require (is_trusted_transport policy url) _) _ h4 in
        let (user, password) = (and-eq-true_iff _ _).0 (require-ok _ _ ha) in
        let quiet : any is_sensitive_query_parameter url.search_keys ≡ false =
          ground (arith, require-ok _ _ hq) in
        let (validator, given, vouched) = (attest_iff policy.validate_authorization_url url).0 h5 in
        (
          url,
          parsed_or-ok _ hp,
          record {
            no_username = (empty_iff url.username).0 user;
            no_password = (empty_iff url.password).0 password;
            no_fragment = (empty_iff url.hash).0 (require-ok _ _ hf);
            no_credentials = (IsPlain-iff url.search_keys).0 quiet;
            transport = (transport_iff policy url).0 (require-ok _ _ ht);
            validator = validator;
            given = given;
            vouched = vouched;
          },
        ),
    λ (url, parsed, trusted). from_parsed binding url parsed trusted,
  )
