-- ===== src/Http/Request.antt =====
-- toolkits/httptool/httptool.go (doGET, doPOST), with MapToolkitReadError of read_helpers.go: one request.
--
-- A server is a function from a state and a request to a new state and a response; the client sends it
-- the request of the tool and those of the redirects that it follows. `next` is what net/http makes of a
-- response that redirects: a further request or an error. The parse of the checked URL that net/http makes
-- again is `check_request`. A header is set over one whose key is canonically the same. `after_read` is `ctx.Err()` when the body was read.
use toolsy.Prelude.{
  ℕ, zero, suc, ◌+◌, ◌-◌, String, Bool, true, false, not, ◌&&◌, ◌||◌, Option, none, some, List, [],
  ◌∷◌, is_empty, all, leb, ◌==◌, if◌then◌else◌,
}
use toolsy.Errors.{
  GoError, lit, wrap, to_error, new_internal_error, read_limit_exceeded, is, is_context_interrupt,
  Result, ok, err, ◌>>=◌,
}
use toolsy.Bytes.{Bytes, bytes, same_bytes}
use toolsy.TextProcessor.Reading.{Reader, read_limited_bytes}
use toolsy.Mcp.{map_read_limit_error_for}
use toolsy.Http.Address.{Net, Url, validate_url, check_redirect_allowed, max_redirects, refusal}

abbrev pub Header : Type 0
Header = List (Bytes × Bytes)

abbrev contains_number : List ℕ → ℕ → Bool
contains_number [] c = false
contains_number (x ∷ xs) c = x == c || contains_number xs c

-- The bytes of a token.
abbrev is_token_byte : ℕ → Bool
is_token_byte c =
    leb 48 c && leb c 57
    || leb 65 c && leb c 90
    || leb 97 c && leb c 122
    || contains_number (bytes "!#$%&'*+-.^_`|~") c

-- The loop of textproto.CanonicalMIMEHeaderKey: upper case at the beginning and after a dash.
abbrev canonical_bytes : Bool → Bytes → Bytes
canonical_bytes up [] = []
canonical_bytes up (c ∷ k) =
    (if up && (leb 97 c && leb c 122)
      then c - 32
      else if not up && (leb 65 c && leb c 90)
      then c + 32
      else c)
    ∷ canonical_bytes (c == 45) k

-- A key that is no token stays as it is.
abbrev pub canonical_key : Bytes → Bytes
canonical_key k = if all is_token_byte k then canonical_bytes true k else k

abbrev put_header : Header → Bytes → Bytes → Header
put_header [] k v = (k, v) ∷ []
put_header ((j, w) ∷ h) k v =
    let rest = put_header h k v in if same_bytes j k then (k, v) ∷ h else (j, w) ∷ rest

-- Header.Set
unfoldable pub set_header : Header → Bytes → Bytes → Header
unfolding same_bytes
set_header h k v = put_header h (canonical_key k) v

abbrev pub set_headers : Header → List (Bytes × Bytes) → Header
set_headers h [] = h
set_headers h ((k, v) ∷ kvs) = set_headers (set_header h k v) kvs

pub data Method : Type 0 where
  get : Method
  post : Method

pub record Request : Type 0 where
  pub method : Method
  pub url : Url
  pub body : Bytes
  pub header : Header

pub record Response : Type 0 where
  pub status_code : ℕ
  pub content : Reader

pub record HttpResult : Type 0 where
  pub status : ℕ
  pub body : Bytes

pub record Options : Type 0 where
  pub allowed_domains : List Bytes
  pub headers : List (Bytes × Bytes)
  pub max_response_body : ℕ
  pub allow_private_ips : Bool

-- The credentials of a run, if it has any: the value of the header, which may be empty.
abbrev pub Credentials : Type 0
Credentials = Option (String → Result Bytes)

abbrev pub internal : String → GoError → GoError
internal op e = to_error (new_internal_error (wrap (lit op ∷ []) e))

-- MapToolkitReadError of an error, with the `op` and the subject of both tools
unfoldable pub map_toolkit_read_error : Option GoError → ℕ → GoError → Option GoError
map_toolkit_read_error (some ctx_err) max_bytes e =
    some (internal "toolkit/httptool: read body" ctx_err)
map_toolkit_read_error none max_bytes e =
    if is_context_interrupt e
    then some (internal "toolkit/httptool: read body" e)
    else if is e read_limit_exceeded
    then some (map_read_limit_error_for max_bytes "response body")
    else none

abbrev pub read_failed : Option GoError → ℕ → GoError → GoError
read_failed after_read max_bytes e = elim (map_toolkit_read_error after_read max_bytes e) [
  | some mapped ↦ mapped
  | none ↦ internal "toolkit/httptool: read body" e
]

abbrev pub authorized : Credentials → String → Header → Result Header
authorized none tool_name h = ok h
authorized (some credentials) tool_name h = elim (credentials tool_name) [
  | err e ↦ err (
      to_error (
        new_internal_error
          (wrap (lit "toolkit/httptool: credentials for " ∷ lit tool_name ∷ []) e)))
  | ok auth ↦ ok (if is_empty auth then h else set_header h (bytes "Authorization") auth)
]

-- Whether net/http takes the URL of a request.
abbrev pub created : (Url → Option GoError) → Url → Result (Unit {0})
created check_request u = elim (check_request u) [
  | some e ↦ err (internal "toolkit/httptool: new request" e)
  | none ↦ ok tt
]

-- The header of a request with that body.
abbrev pub body_type : Bytes → Header
body_type json_body =
    if is_empty json_body
    then []
    else set_header [] (bytes "Content-Type") (bytes "application/json")

module _ (net : Net) (check_request : Url → Option GoError) where
  -- The request that doGET sends, or its error before that.
  unfoldable pub get_request : Credentials → String → Options → Bytes → Result Request
  unfolding validate_url
  get_request credentials tool_name o raw =
      validate_url net raw o.allowed_domains o.allow_private_ips >>= λ u.
      created check_request u >>= λ _.
      authorized credentials tool_name (set_headers [] o.headers) >>= λ h.
      ok (record { method = get; url = u; body = []; header = h })

  -- The request that doPOST sends.
  unfoldable pub post_request : Credentials → String → Options → Bytes → Bytes → Result Request
  unfolding validate_url
  post_request credentials tool_name o raw json_body =
      validate_url net raw o.allowed_domains o.allow_private_ips >>= λ u.
      created check_request u >>= λ _.
      authorized credentials tool_name (set_headers (body_type json_body) o.headers) >>= λ h.
      ok (record { method = post; url = u; body = json_body; header = h })

module _ (before_read after_read : Option GoError) where
  -- The response, read up to the limit.
  unfoldable pub response_result : Options → Response → Result HttpResult
  unfolding read_limited_bytes map_toolkit_read_error
  response_result o resp =
      elim (read_limited_bytes before_read after_read resp.content o.max_response_body) [
        | err e ↦ err (read_failed after_read o.max_response_body e)
        | ok body ↦ ok (record { status = resp.status_code; body = body })
      ]

  abbrev pub answered : {S : Type 0} → Options → S × Result Response → S × Result HttpResult
  answered o (s, err e) = (s, err (internal "toolkit/httptool: do request" e))
  answered o (s, ok resp) = (s, response_result o resp)

module _ {S : Type 0} (net : Net) (exchange : S → Request → S × Result Response)
    (next : Request → Response → Option (Result Request)) where
  -- What the check of a redirect says, after `via` requests.
  abbrev pub redirected : Options → ℕ → Result Request → Result Request
  redirected o via (err e) = err e
  redirected o via (ok r) =
      elim (check_redirect_allowed net o.allowed_domains o.allow_private_ips r.url via) [
        | err e ↦ err e
        | ok t ↦ ok r
      ]

  -- The request that follows a response, if there is one.
  abbrev pub following : Options → ℕ → Request → Response → Option (Result Request)
  following o via r resp = elim (next r resp) [ none ↦ none | some r' ↦ some (redirected o via r') ]

  abbrev pub after_response :
      (S → Request → S × Result Response)
      → S
      → Response
      → Option (Result Request)
      → S × Result Response
  after_response again s resp none = (s, ok resp)
  after_response again s resp (some (err e)) = (s, err e)
  after_response again s resp (some (ok r)) = again s r

  abbrev pub after_exchange :
      (S → Request → S × Result Response)
      → Options
      → ℕ
      → Request
      → S × Result Response
      → S × Result Response
  after_exchange again o via r (s, err e) = (s, err e)
  after_exchange again o via r (s, ok resp) = after_response again s resp (following o via r resp)

  -- Do of the client of defaultHTTPClient, where `left` redirects more may be followed; that is all, since
  -- the check of redirects refuses the next one.
  unfoldable pub client_do : Options → ℕ → S → Request → S × Result Response
  unfolding check_redirect_allowed
  client_do o zero s r =
      after_exchange (λ s' r'. (s', err (refusal (lit "too many redirects" ∷ [])))) o max_redirects
        r (exchange s r)
  client_do o (suc left) s r =
      after_exchange (client_do o left) o (max_redirects - suc left) r (exchange s r)

module _ {S : Type 0} (exchange : S → Request → S × Result Response)
    (next : Request → Response → Option (Result Request))
    (before_read after_read : Option GoError) where
  -- The part that doGET and doPOST share: a request that could be made is sent, and its redirects.
  unfoldable pub send : Net → Options → S → Result Request → S × Result HttpResult
  unfolding response_result client_do
  send net o s (err e) = (s, err e)
  send net o s (ok r) =
      answered before_read after_read o (client_do net exchange next o (max_redirects - 1) s r)

  module _ (net : Net) (check_request : Url → Option GoError) where
    unfoldable pub do_get : Credentials → String → Options → Bytes → S → S × Result HttpResult
    unfolding send get_request
    do_get credentials tool_name o raw s =
        send net o s (get_request net check_request credentials tool_name o raw)

    unfoldable pub do_post :
        Credentials → String → Options → Bytes → Bytes → S → S × Result HttpResult
    unfolding send post_request
    do_post credentials tool_name o raw json_body s =
        send net o s (post_request net check_request credentials tool_name o raw json_body)
