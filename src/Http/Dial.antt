-- ===== src/Http/Dial.antt =====
-- toolkits/httptool/transport.go (SafeDialTransport, safeDialContext): the connection of a client.
use toolsy.Prelude.{Bool, Option, none, some, List, [], ◌∷◌}
use toolsy.Errors.{lit, Result, ok, err, ◌>>=◌}
use toolsy.Bytes.{Bytes}
use toolsy.Http.{HostPolicy, normalize_host_policy, host_allowed}
use toolsy.Http.Address.{Ip, Net, is_blocked_ip, refusal, require, reject_blocked}

pub record SafeDialOptions : Type 0 where
  pub blocked_hosts : List Bytes
  pub allowed_hosts : List Bytes
  pub is_blocked : Option (Ip → Bool)
  pub allow_private_ips : Bool

-- The address and the port that a connection is made to.
pub record Dialled : Type 0 where
  pub host : Bytes
  pub ip : Ip
  pub port : Bytes

abbrev pub blocking : SafeDialOptions → Ip → Bool
blocking opts ip = elim opts.is_blocked [ some f ↦ f ip | none ↦ is_blocked_ip ip ]

abbrev pub first_address : List Ip → Result Ip
first_address [] = err (refusal (lit "SSRF: no address for host" ∷ []))
first_address (ip ∷ ips) = ok ip

-- The check of all the addresses of a host, and the first of them.
abbrev pub pinned : (Ip → Bool) → Bool → List Ip → Result Ip
pinned is_blocked allow_private ips =
    first_address ips >>= λ ip. reject_blocked is_blocked allow_private ips >>= λ _. ok ip

-- safeDialContext, with net.SplitHostPort as `split`: where the dialer connects to
unfoldable pub safe_dial_context :
    Net
    → (Bytes → Result (Bytes × Bytes))
    → (Ip → Bool)
    → Bool
    → HostPolicy
    → Bytes
    → Result Dialled
unfolding host_allowed reject_blocked
safe_dial_context net split is_blocked allow_private p addr = split addr >>= λ hp.
    require (host_allowed hp.0 p) (lit "SSRF: host not allowed" ∷ []) >>= λ _.
    net.lookup hp.0 >>= λ ips.
    pinned is_blocked allow_private ips >>= λ ip. ok (record { host = hp.0; ip = ip; port = hp.1 })

-- The dial of a SafeDialTransport
unfoldable pub safe_dial_transport :
    Net → (Bytes → Result (Bytes × Bytes)) → SafeDialOptions → Bytes → Result Dialled
unfolding safe_dial_context normalize_host_policy is_blocked_ip
safe_dial_transport net split opts addr =
    safe_dial_context net split (blocking opts) opts.allow_private_ips
      (normalize_host_policy opts.allowed_hosts opts.blocked_hosts) addr
