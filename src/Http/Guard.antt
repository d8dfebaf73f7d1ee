-- ===== src/Http/Guard.antt =====
-- toolkits/httptool/httptool.go (doGET, doPOST): which requests reach a server, and what comes back.
use toolsy.Prelude.{
  ◌-◌, ◌++◌, ◌∷◌, arith, length-append, ap, sym, ◌∙◌, All, some, ℕ, ◌≤◌, String, Option, none, [],
  ◌≡◌, refl, subst, ◌⊎◌, inl, inr, length,
}
use toolsy.Errors.{GoError, Result, ok, err, ok_injective, Result-cases}
use toolsy.Bytes.{Bytes}
use toolsy.TextProcessor.Reading.{read_limited_bytes, read_limited_bytes-IsWholeRead}
use toolsy.Http.Address.{Net, Url, validate_url}
use toolsy.Http.Redirects.{Log, IsSafeUrl, IsNewest, logged, client_do-IsFollowed}
use toolsy.Http.Urls.{IsAllowed, validate_url-IsAllowed}
use toolsy.Http.Address.{max_redirects}
use toolsy.Http.Request.{
  client_do, Method, get, post, set_headers, body_type, Request, Response, HttpResult, Options,
  Credentials, created, authorized, get_request, post_request, response_result, answered, send,
  do_get, do_post,
}

-- What a checked request is made of.
abbrev pub IsRequest : Net → Bytes → Options → Method → Bytes → Request → Type 0
IsRequest net raw o m body r =
    IsAllowed net raw o.allowed_domains o.allow_private_ips r.url × (r.method ≡ m) × (r.body ≡ body)

get_request-IsRequest :
    (net : Net) (check_request : Url → Option GoError) (credentials : Credentials)
    (tool_name : String) (o : Options) (raw : Bytes) (r : Request)
    → get_request net check_request credentials tool_name o raw ≡ ok r
    → IsRequest net raw o get [] r
unfolding get_request
get_request-IsRequest net check_request credentials tool_name o raw r k =
    elim (Result-cases (validate_url net raw o.allowed_domains o.allow_private_ips)) [
      | inr (e, h) ↦ absurd (cc (rw (get_request, h) at k))
      | inl (u, h) ↦ elim (Result-cases (created check_request u)) [
        | inr (e, c) ↦ absurd (cc (rw (get_request, h, c) at k))
        | inl (t, c) ↦
            elim (Result-cases (authorized credentials tool_name (set_headers [] o.headers))) [
              | inr (e, a) ↦ absurd (cc (rw (get_request, h, c, a) at k))
              | inl (header, a) ↦
                  subst (IsRequest net raw o get []) (ok_injective (rw (get_request, h, c, a) at k))
                    (
                      validate_url-IsAllowed net raw o.allowed_domains o.allow_private_ips u h,
                      refl,
                      refl,
                    )
            ]
      ]
    ]

post_request-IsRequest :
    (net : Net) (check_request : Url → Option GoError) (credentials : Credentials)
    (tool_name : String) (o : Options) (raw json_body : Bytes) (r : Request)
    → post_request net check_request credentials tool_name o raw json_body ≡ ok r
    → IsRequest net raw o post json_body r
unfolding post_request
post_request-IsRequest net check_request credentials tool_name o raw json_body r k =
    elim (Result-cases (validate_url net raw o.allowed_domains o.allow_private_ips)) [
      | inr (e, h) ↦ absurd (cc (rw (post_request, h) at k))
      | inl (u, h) ↦ elim (Result-cases (created check_request u)) [
        | inr (e, c) ↦ absurd (cc (rw (post_request, h, c) at k))
        | inl (t, c) ↦
            elim (Result-cases
              (authorized credentials tool_name (set_headers (body_type json_body) o.headers))) [
                | inr (e, a) ↦ absurd (cc (rw (post_request, h, c, a) at k))
                | inl (header, a) ↦
                    subst (IsRequest net raw o post json_body)
                      (ok_injective (rw (post_request, h, c, a) at k))
                      (
                        validate_url-IsAllowed net raw o.allowed_domains o.allow_private_ips u h,
                        refl,
                        refl,
                      )
              ]
      ]
    ]

-- What a tool returns for what the server answers: its whole body within the limit, or an error.
abbrev pub IsAnswer : ℕ → Result Response → Result HttpResult → Type 0
IsAnswer limit (ok resp) (ok res) =
    (res.status ≡ resp.status_code)
    × (res.body ≡ resp.content.content)
    × (length res.body ≤ limit)
    × (resp.content.failure ≡ none)
IsAnswer limit (ok resp) (err e) = Unit
IsAnswer limit (err e) (ok res) = ⊥
IsAnswer limit (err e) (err f) = Unit

module _ (before_read after_read : Option GoError) where
  response_result-IsAnswer :
      (o : Options) (resp : Response)
      → IsAnswer o.max_response_body (ok resp) (response_result before_read after_read o resp)
  unfolding response_result
  response_result-IsAnswer o resp =
      let whole =
        read_limited_bytes-IsWholeRead before_read after_read resp.content o.max_response_body in
      elim (Result-cases
        (read_limited_bytes before_read after_read resp.content o.max_response_body)) [
          | inr (e, h) ↦ rw (response_result, h) tt
          | inl (body, h) ↦
              let (same, short, clean, before, after) = rw h at whole in
              rw (response_result, h) (refl, same, short, clean)
        ]

  answered-IsAnswer :
      {S : Type 0} (o : Options) (p : S × Result Response)
      → ((answered before_read after_read o p).0 ≡ p.0)
        × IsAnswer o.max_response_body p.1 (answered before_read after_read o p).1
  answered-IsAnswer o (s, err e) = (refl, tt)
  answered-IsAnswer o (s, ok resp) = (refl, response_result-IsAnswer o resp)

module _ {S : Type 0} (exchange : S → Request → S × Result Response)
    (next : Request → Response → Option (Result Request)) (before_read after_read : Option GoError)
    (net : Net) (o : Options) where
  -- An error and a server that saw nothing, or one checked request, the redirects that were followed after
  -- it, and the answer to the last of these requests.
  abbrev pub IsGuarded : Bytes → Method → Bytes → S → (Log × S) × Result HttpResult → Type 0
  IsGuarded raw m body s p =
      ((p.0 ≡ ([], s)) × ((e : GoError) × (p.1 ≡ err e)))
      ⊎ ((r : Request) × (later : Log) × (answer : Result Response) × IsRequest net raw o m body r
          × (p.0.0 ≡ later ++ (r, (exchange s r).1) ∷ [])
          × All (λ q. IsSafeUrl net o q.0.url) later
          × (length p.0.0 ≤ max_redirects)
          × IsNewest p.0.0 answer
          × IsAnswer o.max_response_body answer p.1)

  send-IsGuarded :
      (raw : Bytes) (m : Method) (body : Bytes) (s : S) (request : Result Request)
      → ((r : Request) (resp : Response) (r' : Request)
          → next r resp ≡ some (ok r')
          → net.parse r'.url.spelled_as ≡ ok r'.url)
      → ((r : Request) → request ≡ ok r → IsRequest net raw o m body r)
      → IsGuarded raw m body s
          (send (logged exchange) next before_read after_read net o ([], s) request)
  unfolding send
  send-IsGuarded raw m body s (err e) reparsed fine = inl (refl, (e, refl))
  send-IsGuarded raw m body s (ok r) reparsed fine =
      let run = client_do net (logged exchange) next o (max_redirects - 1) ([], s) r in
      let (later, log, safe, few, newest) =
        client_do-IsFollowed net o exchange next reparsed (max_redirects - 1) ([], s) r in
      let (state, answer) = answered-IsAnswer before_read after_read o run in
      let sent = ap (λ x. x.0) state in
      let last : Log = (r, (exchange s r).1) ∷ [] in
      inr (
        r,
        later,
        run.1,
        fine r refl,
        sent ∙ log,
        safe,
        omega (arith, few, ap length (sent ∙ log), length-append later last),
        subst (λ x. IsNewest x run.1) (sym sent) newest,
        answer,
      )

  -- A GET or a POST either fails without the server having seen anything, or sends at most ten requests:
  -- the first to a URL that the text is read as, with the method and the body asked for, and then the
  -- redirects that are followed. All of them are for URLs of http or https whose host is under an allowed
  -- domain and has no blocked address, unless private ones are let through. A result that is not an error
  -- has the status and the whole body of the answer to the last request, and the body was read without an
  -- error and is within the limit. A URL that a redirect gives is read back from its text.
  pub do_get-IsGuarded :
      (check_request : Url → Option GoError) (credentials : Credentials) (tool_name : String)
      (raw json_body : Bytes) (s : S)
      → ((r : Request) (resp : Response) (r' : Request)
          → next r resp ≡ some (ok r')
          → net.parse r'.url.spelled_as ≡ ok r'.url)
      → IsGuarded raw get [] s (
          do_get
            (logged exchange)
            next
            before_read
            after_read
            net
            check_request
            credentials
            tool_name
            o
            raw
            ([], s))
        × IsGuarded raw post json_body s (
            do_post
              (logged exchange)
              next
              before_read
              after_read
              net
              check_request
              credentials
              tool_name
              o
              raw
              json_body
              ([], s))
  unfolding do_get do_post
  do_get-IsGuarded check_request credentials tool_name raw json_body s reparsed = (
    send-IsGuarded raw get [] s _ reparsed
        (λ r h. get_request-IsRequest net check_request credentials tool_name o raw r h),
    send-IsGuarded raw post json_body s _ reparsed
        (λ r h. post_request-IsRequest net check_request credentials tool_name o raw json_body r h),
  )
