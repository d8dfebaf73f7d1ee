-- ===== src/Http/Urls.antt =====
-- toolkits/httptool/security.go (validateURL): what is known of a URL that it lets through.
use toolsy.Prelude.{
  ℕ, Bool, true, false, List, ◌≡◌, refl, sym, ap, subst, ◌∙◌, ◌⊎◌, inl, inr, All, Bool-cases,
  is_empty,
}
use toolsy.Errors.{ok, ok_injective, Result-cases}
use toolsy.Bytes.{Bytes, trim_space}
use toolsy.Http.{to_lower, host_in_list}
use toolsy.Http.Address.{
  Net, Url, is_http, is_blocked_ip, parse_http_url, validate_url, validate_remote_url_parsed,
}
use toolsy.Http.Hosts.{IsUnderSome, host_in_list-IsUnderSome}
use toolsy.Http.Safety.{reject_blocked-All}

-- The addresses of a URL's host are found, and none is blocked, unless private ones are let through.
abbrev pub IsPublic : Net → Bool → Url → Type 0
IsPublic net allow_private u =
    (allow_private ≡ true)
    ⊎ ((addrs : List (List ℕ)) × (net.lookup u.hostname ≡ ok addrs)
        × All (λ ip. is_blocked_ip ip ≡ false) addrs)

-- A URL that is read from a text, of http or https, whose host is under an allowed domain.
abbrev pub IsAllowed : Net → Bytes → List Bytes → Bool → Url → Type 0
IsAllowed net raw allowed_domains allow_private u =
    (net.parse raw ≡ ok u)
    × (is_http (to_lower u.scheme) ≡ true)
    × IsUnderSome (to_lower (trim_space u.hostname)) allowed_domains
    × IsPublic net allow_private u

parse_http_url-read :
    (net : Net) (raw : Bytes) (u : Url) (host : Bytes)
    → parse_http_url net raw ≡ ok (u, host)
    → (net.parse raw ≡ ok u)
      × (is_http (to_lower u.scheme) ≡ true)
      × (to_lower (trim_space u.hostname) ≡ host)
unfolding parse_http_url
parse_http_url-read net raw u host k = elim (Result-cases (net.parse raw)) [
  | inr (e, h) ↦ absurd (cc (rw (parse_http_url, h) at k))
  | inl (v, h) ↦ elim (Bool-cases (is_http (to_lower v.scheme))) [
    | inr b ↦ absurd (cc (rw (parse_http_url, h, b) at k))
    | inl b ↦ elim (Bool-cases (is_empty (trim_space v.hostname))) [
      | inl n ↦ absurd (cc (rw (parse_http_url, h, b, n) at k))
      | inr n ↦
          let pair = ok_injective (rw (parse_http_url, h, b, n) at k) in
          let e : v ≡ u = ap (λ x. x.0) pair in
          (
            h ∙ ap (λ x. ok x) e,
            subst (λ x. is_http (to_lower x.scheme) ≡ true) e b,
            ap (λ x. to_lower (trim_space x.hostname)) (sym e) ∙ ap (λ x. x.1) pair,
          )
    ]
  ]
]

validate_remote_url_parsed-IsPublic :
    (net : Net) (u : Url) (allow_private : Bool)
    → validate_remote_url_parsed net u allow_private ≡ ok tt
    → IsPublic net allow_private u
unfolding validate_remote_url_parsed
validate_remote_url_parsed-IsPublic net u true k = inl refl
validate_remote_url_parsed-IsPublic net u false k = elim (Result-cases (net.lookup u.hostname)) [
  | inr (e, h) ↦ absurd (cc (rw (validate_remote_url_parsed, h) at k))
  | inl (addrs, h) ↦
      inr
        (addrs, h, reject_blocked-All is_blocked_ip addrs (rw (validate_remote_url_parsed, h) at k))
]

pub validate_url-IsAllowed :
    (net : Net) (raw : Bytes) (allowed_domains : List Bytes) (allow_private : Bool) (u : Url)
    → validate_url net raw allowed_domains allow_private ≡ ok u
    → IsAllowed net raw allowed_domains allow_private u
unfolding validate_url
validate_url-IsAllowed net raw allowed_domains allow_private u k =
    elim (Result-cases (parse_http_url net raw)) [
      | inr (e, h) ↦ absurd (cc (rw (validate_url, h) at k))
      | inl ((v, host), h) ↦ elim (Bool-cases (is_empty allowed_domains)) [
        | inl n ↦ absurd (cc (rw (validate_url, h, n) at k))
        | inr n ↦ elim (Bool-cases (host_in_list host allowed_domains)) [
          | inr m ↦ absurd (cc (rw (validate_url, h, n, m) at k))
          | inl m ↦ elim (Result-cases (validate_remote_url_parsed net v allow_private)) [
            | inr (e, p) ↦ absurd (cc (rw (validate_url, h, n, m, p) at k))
            | inl (t, p) ↦
                let (read, http, low) = parse_http_url-read net raw v host h in
                let same : v ≡ u = ok_injective (rw (validate_url, h, n, m, p) at k) in
                subst (IsAllowed net raw allowed_domains allow_private) same (
                  read,
                  http,
                  subst (λ x. IsUnderSome x allowed_domains) (sym low)
                      (host_in_list-IsUnderSome host allowed_domains m),
                  validate_remote_url_parsed-IsPublic net v allow_private p,
                )
          ]
        ]
      ]
    ]
