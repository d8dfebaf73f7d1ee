-- ===== src/Http/Tests.antt =====
-- toolkits/httptool: the hosts, the dialer and the tools, at a small net.
use mathlib.Core.Option
use toolsy.Prelude.{
  Option, some, none, ◌==◌, Bool-cases, inl, inr, ap, if◌then◌else◌, ℕ, ◌+◌, true, false, none, [],
  ◌∷◌, ◌≡◌, ◌↔◌, refl,
}
use toolsy.Errors.{ok_injective, Result, ok, err}
use toolsy.Bytes.{Bytes, bytes, trim_space, contains_bytes}
use toolsy.Http.{normal, match_host, host_allowed, normalize_host_policy}
use toolsy.Http.Address.{
  Ip, Net, Url, is_blocked_ip, validate_url, check_redirect_remote, private_ip,
  validate_remote_url_with_blacklist,
}
use toolsy.Http.Dial.{SafeDialOptions, Dialled, safe_dial_transport}
use toolsy.Http.Hosts.{IsUnder, match_host-IsUnder}
use toolsy.Http.Safety.{IsSafe, safe_dial_transport-IsSafe}
use toolsy.Http.Request.{Request, Response, Options, get, post, do_get, do_post, canonical_key}
use toolsy.Http.Redirects.{logged}
use toolsy.Http.Guard.{IsGuarded, do_get-IsGuarded}

abbrev domain : Bytes
domain = bytes "example.com"

abbrev api_host : Bytes
api_host = bytes "api.example.com"

abbrev public_ip : Ip
public_ip = 93 ∷ 184 ∷ 216 ∷ 34 ∷ []

abbrev api_url : Url
api_url = record {
  scheme = bytes "HTTPS";
  hostname = bytes "API.example.com";
  spelled_as = bytes "url";
}

abbrev small_net : Net
small_net = record { parse = λ raw. ok api_url; lookup = λ h. ok (public_ip ∷ []) }

abbrev private_net : Net
private_net = record small_net { lookup = λ h. ok (public_ip ∷ (10 ∷ 0 ∷ 0 ∷ 7 ∷ []) ∷ []) }

abbrev split_all : Bytes → Result (Bytes × Bytes)
split_all addr = ok (addr, bytes "443")

abbrev dial_options : SafeDialOptions
dial_options = record {
  blocked_hosts = [];
  allowed_hosts = domain ∷ [];
  is_blocked = none;
  allow_private_ips = false;
}

subdomain_matches : match_host api_host domain ≡ true
unfolding match_host trim_space contains_bytes is_blocked_ip
subdomain_matches = refl

other_domain_fails : match_host (bytes "badexample.com") domain ≡ false
unfolding match_host trim_space contains_bytes is_blocked_ip
other_domain_fails = refl

suffix_excludes_its_base : match_host domain (bytes ".example.com") ≡ false
unfolding match_host trim_space contains_bytes is_blocked_ip
suffix_excludes_its_base = refl

-- A host that stands in both lists is denied, and one under it is not.
conflict_of_the_host :
    host_allowed domain (normalize_host_policy (domain ∷ []) (domain ∷ [])) ≡ false
unfolding host_allowed normalize_host_policy trim_space contains_bytes is_blocked_ip
conflict_of_the_host = refl

conflict_below_the_host :
    host_allowed api_host (normalize_host_policy (domain ∷ []) (domain ∷ [])) ≡ true
unfolding host_allowed normalize_host_policy trim_space contains_bytes is_blocked_ip
conflict_below_the_host = refl

mapped_loopback_blocked :
    is_blocked_ip (0 ∷ 0 ∷ 0 ∷ 0 ∷ 0 ∷ 0 ∷ 0 ∷ 0 ∷ 0 ∷ 0 ∷ 255 ∷ 255 ∷ 127 ∷ 0 ∷ 0 ∷ 1 ∷ []) ≡ true
unfolding is_blocked_ip
mapped_loopback_blocked = refl

private_refused : validate_url private_net (bytes "url") (domain ∷ []) false ≡ err private_ip
unfolding validate_url trim_space contains_bytes is_blocked_ip
private_refused = refl

public_accepted : validate_url small_net (bytes "url") (domain ∷ []) false ≡ ok api_url
unfolding validate_url trim_space contains_bytes is_blocked_ip
public_accepted = refl

redirect_to_public : check_redirect_remote small_net false [] api_url 9 ≡ ok tt
unfolding check_redirect_remote trim_space contains_bytes is_blocked_ip
redirect_to_public = refl

blacklist_passes : validate_remote_url_with_blacklist small_net (bytes "url") false [] ≡ ok api_url
unfolding validate_remote_url_with_blacklist trim_space contains_bytes is_blocked_ip
blacklist_passes = refl

match_host-IsUnder_example :
    (match_host api_host domain ≡ true) ↔ IsUnder (normal api_host) (normal domain)
match_host-IsUnder_example = match_host-IsUnder api_host domain

abbrev connection : Dialled
connection = record { host = api_host; ip = public_ip; port = bytes "443" }

connects : safe_dial_transport small_net split_all dial_options api_host ≡ ok connection
unfolding safe_dial_transport trim_space contains_bytes is_blocked_ip
connects = refl

safe_dial_transport-IsSafe_example :
    (safe_dial_transport small_net split_all dial_options api_host ≡ ok connection)
    ↔ IsSafe small_net split_all dial_options api_host connection
safe_dial_transport-IsSafe_example =
    safe_dial_transport-IsSafe small_net split_all dial_options api_host connection

-- A server that counts its requests, the first of which it redirects to the same URL.
abbrev count_requests : ℕ → Request → ℕ × Result Response
count_requests n r = (
  n + 1,
  ok (record {
    status_code = if n == 0 then 302 else 200;
    content = record { content = bytes "hello"; failure = none };
  }),
)

abbrev moved : Request → Response → Option (Result Request)
moved r resp = if resp.status_code == 302 then some (ok (record r { url = api_url })) else none

abbrev tool_options : Options
tool_options = record {
  allowed_domains = domain ∷ [];
  headers = (bytes "accept", bytes "text/plain") ∷ [];
  max_response_body = 5;
  allow_private_ips = false;
}

moved-reparsed :
    (r : Request) (resp : Response) (r' : Request)
    → moved r resp ≡ some (ok r')
    → small_net.parse r'.url.spelled_as ≡ ok r'.url
moved-reparsed r resp r' h = elim (Bool-cases (resp.status_code == 302)) [
  | inr other ↦ absurd (cc (rw (moved, other) at h))
  | inl found ↦
      let same = ok_injective (Option.some-injective _ _ (rw (moved, found) at h)) in
      ap (λ x. ok x.url) same
]

do_get-IsGuarded_example :
    IsGuarded count_requests moved none none small_net tool_options (bytes "url") get [] 0 (
      do_get
        (logged count_requests)
        moved
        none
        none
        small_net
        (λ u. none)
        none
        "http_get"
        tool_options
        (bytes "url")
        ([], 0))
    × IsGuarded count_requests moved none none small_net tool_options
        (bytes "url")
        post
        (bytes "{}")
        0
        (do_post
          (logged count_requests)
          moved
          none
          none
          small_net
          (λ u. none)
          none
          "http_get"
          tool_options
          (bytes "url")
          (bytes "{}")
          ([], 0))
do_get-IsGuarded_example =
    do_get-IsGuarded count_requests moved none none small_net tool_options (λ u. none) none
      "http_get" (bytes "url") (bytes "{}") 0 moved-reparsed

got_hello :
    do_get count_requests moved none none small_net
      (λ u. none)
      none
      "http_get"
      tool_options
      (bytes "url")
      0
    ≡ (2, ok (record { status = 200; body = bytes "hello" }))
unfolding do_get trim_space contains_bytes is_blocked_ip
got_hello = refl

canonical : canonical_key (bytes "x-API-key") ≡ bytes "X-Api-Key"
canonical = refl
