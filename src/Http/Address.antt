-- ===== src/Http/Address.antt =====
-- toolkits/httptool/transport.go (IsBlockedIP), hosts.go (ValidateResolvedIPs), url.go and client.go: the
-- addresses and the URLs that may be used.
--
-- A net.IP is the list of its bytes, four or sixteen, and an empty one is nil.
use toolsy.Prelude.{
  ℕ, Bool, true, false, not, ◌&&◌, ◌||◌, List, [], ◌∷◌, ◌++◌, length, take, drop, is_empty, leb,
  ltb, ◌==◌, if◌then◌else◌,
}
use toolsy.Errors.{
  GoError, Text, lit, error_text, to_error, new_validation_error, Result, ok, err, ◌>>=◌,
}
use toolsy.Bytes.{Bytes, bytes, same_bytes, trim_space}
use toolsy.Http.{to_lower, host_blocked, host_in_list}

abbrev pub Ip : Type 0
Ip = List ℕ

abbrev mapped_prefix : Ip
mapped_prefix = 0 ∷ 0 ∷ 0 ∷ 0 ∷ 0 ∷ 0 ∷ 0 ∷ 0 ∷ 0 ∷ 0 ∷ 255 ∷ 255 ∷ []

-- To4, which is empty where there is none
abbrev pub to4 : Ip → Ip
to4 ip =
    if length ip == 4
    then ip
    else if length ip == 16 && same_bytes (take 12 ip) mapped_prefix
    then drop 12 ip
    else []

abbrev loopback6 : Ip
loopback6 = 0 ∷ 0 ∷ 0 ∷ 0 ∷ 0 ∷ 0 ∷ 0 ∷ 0 ∷ 0 ∷ 0 ∷ 0 ∷ 0 ∷ 0 ∷ 0 ∷ 0 ∷ 1 ∷ []

abbrev zero6 : Ip
zero6 = 0 ∷ 0 ∷ 0 ∷ 0 ∷ 0 ∷ 0 ∷ 0 ∷ 0 ∷ 0 ∷ 0 ∷ 0 ∷ 0 ∷ 0 ∷ 0 ∷ 0 ∷ 0 ∷ []

-- Loopback, link-local unicast, private, multicast and the unspecified address, of four bytes.
abbrev blocked4 : Ip → Bool
blocked4 (a ∷ b ∷ c ∷ d ∷ []) =
    a == 127
    || a == 169 && b == 254
    || (a == 10 || a == 172 && (leb 16 b && leb b 31) || a == 192 && b == 168)
    || leb 224 a && leb a 239
    || a == 0 && b == 0 && c == 0 && d == 0
blocked4 _ = false

-- The same of sixteen bytes that hold no address of four.
abbrev blocked6 : Ip → Bool
blocked6 (a ∷ b ∷ rest) =
    length (a ∷ b ∷ rest) == 16
    && (same_bytes (a ∷ b ∷ rest) loopback6
        || a == 254 && (leb 128 b && leb b 191)
        || (a == 252 || a == 253)
        || a == 255
        || same_bytes (a ∷ b ∷ rest) zero6)
blocked6 _ = false

-- IsBlockedIP
unfoldable pub is_blocked_ip : Ip → Bool
unfolding same_bytes
is_blocked_ip [] = true
is_blocked_ip (b ∷ ip) =
    let four = to4 (b ∷ ip) in if is_empty four then blocked6 (b ∷ ip) else blocked4 four

abbrev pub refusal : Text → GoError
refusal t = to_error (new_validation_error t [])

abbrev pub private_ip : GoError
private_ip = refusal (lit "SSRF: private or loopback IP not allowed" ∷ [])

-- The loops of ValidateResolvedIPs and of a dial, with the test of an address.
unfoldable pub reject_blocked : (Ip → Bool) → Bool → List Ip → Result (Unit {0})
reject_blocked is_blocked allow_private [] = ok tt
reject_blocked is_blocked allow_private (ip ∷ ips) =
    if not allow_private && is_blocked ip
    then err private_ip
    else reject_blocked is_blocked allow_private ips

-- ValidateResolvedIPs
abbrev pub validate_resolved_ips : List Ip → Bool → Result (Unit {0})
validate_resolved_ips addrs allow_private =
    if allow_private then ok tt else reject_blocked is_blocked_ip false addrs

-- url.URL, as far as it is read.
pub record Url : Type 0 where
  pub scheme : Bytes
  pub hostname : Bytes
  pub spelled_as : Bytes

-- The parse of URLs, and the resolver of host names.
pub record Net : Type 0 where
  pub parse : Bytes → Result Url
  pub lookup : Bytes → Result (List Ip)

abbrev pub or_refuse : {A : Type 0} → Text → Result A → Result A
or_refuse t (ok a) = ok a
or_refuse t (err e) = err (refusal (t ++ error_text e))

abbrev pub require : Bool → Text → Result (Unit {0})
require b t = if b then ok tt else err (refusal t)

abbrev pub is_http : Bytes → Bool
is_http scheme = same_bytes scheme (bytes "http") || same_bytes scheme (bytes "https")

-- parseHTTPURL: the URL, and its host in lower case
unfoldable pub parse_http_url : Net → Bytes → Result (Url × Bytes)
unfolding same_bytes
parse_http_url net raw = or_refuse (lit "invalid URL: " ∷ []) (net.parse raw) >>= λ u.
    require (is_http (to_lower u.scheme)) (lit "only http and https schemes are allowed" ∷ [])
    >>= λ _.
        require (not (is_empty (trim_space u.hostname))) (lit "URL host is missing" ∷ []) >>= λ _.
        ok (u, to_lower (trim_space u.hostname))

-- validateRemoteURLParsed, and the check of addresses in validateURL
unfoldable pub validate_remote_url_parsed : Net → Url → Bool → Result (Unit {0})
unfolding reject_blocked
validate_remote_url_parsed net u allow_private =
    if allow_private
    then ok tt
    else or_refuse (lit "SSRF: host lookup failed: " ∷ []) (net.lookup u.hostname) >>= λ addrs.
        validate_resolved_ips addrs false

-- validateURL
unfoldable pub validate_url : Net → Bytes → List Bytes → Bool → Result Url
unfolding parse_http_url host_in_list validate_remote_url_parsed
validate_url net raw allowed_domains allow_private = parse_http_url net raw >>= λ p.
    require (not (is_empty allowed_domains)) (lit "no allowed domains configured" ∷ []) >>= λ _.
    require (host_in_list p.1 allowed_domains) (lit "SSRF: domain not allowed" ∷ []) >>= λ _.
    validate_remote_url_parsed net p.0 allow_private >>= λ _. ok p.0

-- ValidateRemoteURL
unfoldable pub validate_remote_url : Net → Bytes → Bool → Result (Unit {0})
unfolding parse_http_url validate_remote_url_parsed
validate_remote_url net raw allow_private =
    parse_http_url net raw >>= λ p. validate_remote_url_parsed net p.0 allow_private

abbrev not_blocked : Bytes → List Bytes → Result (Unit {0})
not_blocked host blocked =
    require (not (host_blocked host blocked)) (lit "SSRF: domain is blocked" ∷ [])

-- ValidateRemoteURLWithBlacklist
unfoldable pub validate_remote_url_with_blacklist : Net → Bytes → Bool → List Bytes → Result Url
unfolding parse_http_url host_blocked validate_remote_url_parsed
validate_remote_url_with_blacklist net raw allow_private blocked = parse_http_url net raw >>= λ p.
    validate_remote_url_parsed net p.0 allow_private >>= λ _.
    not_blocked p.1 blocked >>= λ _. ok p.0

abbrev pub max_redirects : ℕ
max_redirects = 10

abbrev few_redirects : ℕ → Result (Unit {0})
few_redirects via = require (ltb via max_redirects) (lit "too many redirects" ∷ [])

-- CheckRedirectAllowed of a URL, after `via` requests
unfoldable pub check_redirect_allowed : Net → List Bytes → Bool → Url → ℕ → Result (Unit {0})
unfolding validate_url
check_redirect_allowed net allowed_domains allow_private u via = few_redirects via >>= λ _.
    validate_url net u.spelled_as allowed_domains allow_private >>= λ _. ok tt

-- CheckRedirectRemote
unfoldable pub check_redirect_remote : Net → Bool → List Bytes → Url → ℕ → Result (Unit {0})
unfolding validate_remote_url host_blocked
check_redirect_remote net allow_private blocked u via = few_redirects via >>= λ _.
    validate_remote_url net u.spelled_as allow_private >>= λ _.
    not_blocked (to_lower (trim_space u.hostname)) blocked
