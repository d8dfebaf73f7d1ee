-- ===== src/Http/Redirects.antt =====
-- toolkits/httptool/client.go (defaultHTTPClient, CheckRedirectAllowed): the requests of one call, with the
-- redirects that the client follows.
use mathlib.Core.List.{append_assoc}
use mathlib.Core.Option
use toolsy.Prelude.{
  ℕ, zero, suc, ◌≤◌, ◌-◌, true, Option, some, List, [], ◌∷◌, ◌++◌, ◌≡◌, ◌≢◌, refl, sym, ap, subst,
  ◌∙◌, inl, inr, arith, length, length-append, ltb, All, All-append, Bool-cases, Option-cases,
}
use toolsy.Errors.{GoError, Result, ok, err, ok_injective, Result-cases}
use toolsy.Bytes.{trim_space}
use toolsy.Http.{to_lower}
use toolsy.Http.Address.{Net, Url, is_http, check_redirect_allowed, validate_url, max_redirects}
use toolsy.Http.Hosts.{IsUnderSome}
use toolsy.Http.Urls.{IsPublic, validate_url-IsAllowed}
use toolsy.Http.Request.{Request, Response, Options, client_do, following, redirected}

-- The requests that a server got, each with its answer, the last first.
abbrev pub Log : Type 0
Log = List (Request × Result Response)

-- A URL of http or https whose host is under an allowed domain and has no blocked address, unless private
-- ones are let through.
abbrev pub IsSafeUrl : Net → Options → Url → Type 0
IsSafeUrl net o u =
    (is_http (to_lower u.scheme) ≡ true)
    × IsUnderSome (to_lower (trim_space u.hostname)) o.allowed_domains
    × IsPublic net o.allow_private_ips u

-- A result is the answer to the last request.
abbrev pub IsNewest : Log → Result Response → Type 0
IsNewest log (err e) = Unit
IsNewest log (ok resp) = (r : Request) × (rest : Log) × (log ≡ (r, ok resp) ∷ rest)

module _ {S : Type 0} (exchange : S → Request → S × Result Response) where
  -- The server with a log beside it.
  abbrev pub logged : Log × S → Request → (Log × S) × Result Response
  logged t r = (((r, (exchange t.1 r).1) ∷ t.0, (exchange t.1 r).0), (exchange t.1 r).1)

module _ (net : Net) (o : Options) where
  check_redirect_allowed-IsSafeUrl :
      (u : Url) (via : ℕ)
      → check_redirect_allowed net o.allowed_domains o.allow_private_ips u via ≡ ok tt
      → net.parse u.spelled_as ≡ ok u
      → IsSafeUrl net o u
  unfolding check_redirect_allowed
  check_redirect_allowed-IsSafeUrl u via h k = elim (Bool-cases (ltb via max_redirects)) [
    | inr many ↦ absurd (cc (rw (check_redirect_allowed, many) at h))
    | inl few ↦
        elim (Result-cases (validate_url net u.spelled_as o.allowed_domains o.allow_private_ips)) [
          | inr (e, bad) ↦ absurd (cc (rw (check_redirect_allowed, few, bad) at h))
          | inl (v, good) ↦
              let (read, http, under, open_to) =
                validate_url-IsAllowed net u.spelled_as o.allowed_domains o.allow_private_ips v
                  good in
              subst (IsSafeUrl net o) (ok_injective (sym read ∙ k)) (http, under, open_to)
        ]
  ]

  module _ {S : Type 0} (exchange : S → Request → S × Result Response)
      (next : Request → Response → Option (Result Request))
      (reparsed : (r : Request) (resp : Response) (r' : Request)
        → next r resp ≡ some (ok r')
        → net.parse r'.url.spelled_as ≡ ok r'.url) where
    abbrev State : Type 0
    State = Log × S

    abbrev pub IsFollowed : ℕ → State → Request → State × Result Response → Type 0
    IsFollowed left t r p =
        (later : Log) × (p.0.0 ≡ later ++ (r, (exchange t.1 r).1) ∷ t.0)
        × All (λ q. IsSafeUrl net o q.0.url) later
        × (length later ≤ left)
        × IsNewest p.0.0 p.1

    following-IsSafeUrl :
        (via : ℕ) (r : Request) (resp : Response) (r' : Request)
        → following net exchange next o via r resp ≡ some (ok r')
        → IsSafeUrl net o r'.url
    following-IsSafeUrl via r resp r' h = elim (Option-cases (next r resp)) [
      | inl nothing ↦ absurd (cc (rw (following, nothing) at h))
      | inr (err e, found) ↦ absurd (cc (rw (following, found) at h))
      | inr (ok q, found) ↦
          elim (Result-cases
            (check_redirect_allowed net o.allowed_domains o.allow_private_ips q.url via)) [
              | inr (e, bad) ↦ absurd (cc (rw (following, found, redirected, bad) at h))
              | inl (t, good) ↦
                  let same =
                    ok_injective
                      (Option.some-injective _ _ (rw (following, found, redirected, good) at h)) in
                  subst (λ x. IsSafeUrl net o x.url) same
                    (check_redirect_allowed-IsSafeUrl q.url via good (reparsed r resp q found))
            ]
    ]

    -- No redirect is followed after as many requests as the check of redirects allows.
    following-last :
        (r : Request) (resp : Response) (r' : Request)
        → following net exchange next o max_redirects r resp ≢ some (ok r')
    unfolding check_redirect_allowed
    following-last r resp r' h = elim (Option-cases (next r resp)) [
      | inl nothing ↦ cc (rw (following, nothing) at h)
      | inr (err e, found) ↦ cc (rw (following, found) at h)
      | inr (ok q, found) ↦ cc (rw (following, found) at h)
    ]

    done-IsFollowed :
        (left : ℕ) (t : State) (r : Request) (resp : Response)
        → (exchange t.1 r).1 ≡ ok resp
        → IsFollowed left t r ((logged exchange t r).0, ok resp)
    done-IsFollowed left t r resp h =
        ([], refl, tt, omega arith, (r, t.0, ap (λ a. (r, a) ∷ t.0) h))

    failed-IsFollowed :
        (left : ℕ) (t : State) (r : Request) (e : GoError)
        → IsFollowed left t r ((logged exchange t r).0, err e)
    failed-IsFollowed left t r e = ([], refl, tt, omega arith, tt)

    -- One redirect, and those after it.
    again-IsFollowed :
        (left : ℕ) (t : State) (r r' : Request) (p : State × Result Response)
        → IsSafeUrl net o r'.url
        → IsFollowed left (logged exchange t r).0 r' p
        → IsFollowed (suc left) t r p
    again-IsFollowed left t r r' p safe (later, log, all_safe, few, newest) =
        let a' = (exchange (logged exchange t r).0.1 r').1 in
        (
          later ++ (r', a') ∷ [],
          log ∙ sym (append_assoc later ((r', a') ∷ []) ((r, (exchange t.1 r).1) ∷ t.0)),
          All-append (λ q. IsSafeUrl net o q.0.url) later ((r', a') ∷ []) all_safe (safe, tt),
          omega (arith, few, length-append later ((r', a') ∷ [])),
          newest,
        )

    pub client_do-IsFollowed :
        (left : ℕ) (t : State) (r : Request)
        → IsFollowed left t r (client_do net (logged exchange) next o left t r)
    unfolding client_do
    client_do-IsFollowed zero t r = elim (Result-cases (exchange t.1 r).1) [
      | inr (e, h) ↦ rw (client_do, h) (rw h at (failed-IsFollowed zero t r e))
      | inl (resp, h) ↦ elim (Option-cases (following net exchange next o max_redirects r resp)) [
        | inl ends ↦ rw (client_do, h, ends) (rw h at (done-IsFollowed zero t r resp h))
        | inr (err e, stops) ↦ rw (client_do, h, stops) (rw h at (failed-IsFollowed zero t r e))
        | inr (ok r', goes) ↦ absurd (following-last r resp r' goes)
      ]
    ]
    client_do-IsFollowed (suc left) t r = elim (Result-cases (exchange t.1 r).1) [
      | inr (e, h) ↦ rw (client_do, h) (rw h at (failed-IsFollowed (suc left) t r e))
      | inl (resp, h) ↦
          elim (Option-cases (following net exchange next o (max_redirects - suc left) r resp)) [
            | inl ends ↦ rw (client_do, h, ends) (rw h at (done-IsFollowed (suc left) t r resp h))
            | inr (err e, stops) ↦
                rw (client_do, h, stops) (rw h at (failed-IsFollowed (suc left) t r e))
            | inr (ok r', goes) ↦
                let again = client_do-IsFollowed left (logged exchange t r).0 r' in
                rw (client_do, h, goes)
                  (rw h at (
                    again-IsFollowed left t r r'
                      (client_do net (logged exchange) next o left (logged exchange t r).0 r')
                      (following-IsSafeUrl (max_redirects - suc left) r resp r' goes) again))
          ]
    ]
