-- ===== src/Http/Safety.antt =====
-- toolkits/httptool/transport.go: which connections a client with a safe dialer makes.
use toolsy.Prelude.{
  Bool, true, false, List, [], ◌∷◌, ◌≡◌, ◌↔◌, refl, ◌∙◌, ap, subst, ◌⊎◌, inl, inr, All, Bool-cases,
}
use toolsy.Errors.{Text, Result, ok, ok_injective, Result-cases}
use toolsy.Bytes.{Bytes}
use toolsy.Http.{normalize_host_policy, host_allowed}
use toolsy.Http.Address.{Ip, Net, reject_blocked, require}
use toolsy.Http.Dial.{
  SafeDialOptions, Dialled, blocking, pinned, safe_dial_context, safe_dial_transport,
}
use toolsy.Http.Lists.{IsPermitted, host_allowed-IsPermitted, IsPermitted-host_allowed}

-- A connection goes to the first address of a permitted host, none of whose addresses is blocked.
abbrev pub IsSafe :
    Net → (Bytes → Result (Bytes × Bytes)) → SafeDialOptions → Bytes → Dialled → Type 0
IsSafe net split opts addr d =
    (split addr ≡ ok (d.host, d.port))
    × IsPermitted opts d.host
    × ((ips : List Ip) × (net.lookup d.host ≡ ok (d.ip ∷ ips))
        × ((opts.allow_private_ips ≡ true) ⊎ All (λ ip. blocking opts ip ≡ false) (d.ip ∷ ips)))

pub reject_blocked-All :
    (is_blocked : Ip → Bool) (ips : List Ip)
    → reject_blocked is_blocked false ips ≡ ok tt
    → All (λ ip. is_blocked ip ≡ false) ips
unfolding reject_blocked
reject_blocked-All is_blocked [] k = tt
reject_blocked-All is_blocked (ip ∷ ips) k = elim (Bool-cases (is_blocked ip)) [
  | inl b ↦ absurd (cc (rw (reject_blocked, b) at k))
  | inr b ↦ (b, reject_blocked-All is_blocked ips (rw (reject_blocked, b) at k))
]

All-reject_blocked :
    (is_blocked : Ip → Bool) (ips : List Ip)
    → All (λ ip. is_blocked ip ≡ false) ips
    → reject_blocked is_blocked false ips ≡ ok tt
unfolding reject_blocked
All-reject_blocked is_blocked [] k = refl
All-reject_blocked is_blocked (ip ∷ ips) (b, k) =
    rw (reject_blocked, b) (All-reject_blocked is_blocked ips k)

private-reject_blocked :
    (is_blocked : Ip → Bool) (ips : List Ip) → reject_blocked is_blocked true ips ≡ ok tt
unfolding reject_blocked
private-reject_blocked is_blocked [] = refl
private-reject_blocked is_blocked (ip ∷ ips) = private-reject_blocked is_blocked ips

abbrev IsPinned : (Ip → Bool) → Bool → List Ip → Ip → Type 0
IsPinned is_blocked allow_private ips ip =
    (rest : List Ip) × (ips ≡ ip ∷ rest)
    × ((allow_private ≡ true) ⊎ All (λ a. is_blocked a ≡ false) (ip ∷ rest))

pinned-IsPinned :
    (is_blocked : Ip → Bool) (allow_private : Bool) (ips : List Ip) (ip : Ip)
    → pinned is_blocked allow_private ips ≡ ok ip
    → IsPinned is_blocked allow_private ips ip
pinned-IsPinned is_blocked allow_private [] ip k = absurd (cc)
pinned-IsPinned is_blocked true (a ∷ ips) ip k =
    let same : a ≡ ip = ok_injective (rw (private-reject_blocked is_blocked (a ∷ ips)) at k) in
    (ips, ap (λ x. x ∷ ips) same, inl refl)
pinned-IsPinned is_blocked false (a ∷ ips) ip k =
    elim (Result-cases (reject_blocked is_blocked false (a ∷ ips))) [
      | inr (e, h) ↦ absurd (cc (rw (pinned, h) at k))
      | inl (u, h) ↦
          let same : a ≡ ip = ok_injective (rw (pinned, h) at k) in
          (
            ips,
            ap (λ x. x ∷ ips) same,
            inr (rw same at (reject_blocked-All is_blocked (a ∷ ips) h)),
          )
    ]

IsPinned-pinned :
    (is_blocked : Ip → Bool) (allow_private : Bool) (ips : List Ip) (ip : Ip)
    → IsPinned is_blocked allow_private ips ip
    → pinned is_blocked allow_private ips ≡ ok ip
IsPinned-pinned is_blocked allow_private ips ip (rest, e, inl h) =
    rw (e, h, private-reject_blocked is_blocked (ip ∷ rest)) refl
IsPinned-pinned is_blocked allow_private ips ip (rest, e, inr h) = elim (Bool-cases allow_private) [
  | inl p ↦ rw (e, p, private-reject_blocked is_blocked (ip ∷ rest)) refl
  | inr p ↦ rw (e, p, All-reject_blocked is_blocked (ip ∷ rest) h) refl
]

require-true : (b : Bool) (t : Text) → require b t ≡ ok tt → b ≡ true
require-true true t k = refl
require-true false t k = absurd (cc)

connected-IsSafe :
    (net : Net) (split : Bytes → Result (Bytes × Bytes)) (opts : SafeDialOptions) (addr : Bytes)
    (d : Dialled)
    → safe_dial_transport net split opts addr ≡ ok d
    → IsSafe net split opts addr d
unfolding safe_dial_transport safe_dial_context
connected-IsSafe net split opts addr d k = elim (Result-cases (split addr)) [
  | inr (e, h) ↦ absurd (cc (rw (safe_dial_transport, h) at k))
  | inl (hp, h) ↦
      elim (Bool-cases
        (host_allowed hp.0 (normalize_host_policy opts.allowed_hosts opts.blocked_hosts))) [
          | inr b ↦ absurd (cc (rw (safe_dial_transport, h, b) at k))
          | inl b ↦ elim (Result-cases (net.lookup hp.0)) [
            | inr (e, l) ↦ absurd (cc (rw (safe_dial_transport, h, b, l) at k))
            | inl (ips, l) ↦
                elim (Result-cases (pinned (blocking opts) opts.allow_private_ips ips)) [
                  | inr (e, p) ↦ absurd (cc (rw (safe_dial_transport, h, b, l, p) at k))
                  | inl (ip, p) ↦
                      let (rest, e, fine) =
                        pinned-IsPinned (blocking opts) opts.allow_private_ips ips ip p in
                      let made : Dialled = record { host = hp.0; ip = ip; port = hp.1 } in
                      let same : made ≡ d =
                        ok_injective (rw (safe_dial_transport, h, b, l, p) at k) in
                      subst (IsSafe net split opts addr) same (
                        h,
                        host_allowed-IsPermitted opts hp.0 b,
                        (rest, l ∙ ap (λ x. ok x) e, fine),
                      )
                ]
          ]
        ]
]

IsSafe-connected :
    (net : Net) (split : Bytes → Result (Bytes × Bytes)) (opts : SafeDialOptions) (addr : Bytes)
    (d : Dialled)
    → IsSafe net split opts addr d
    → safe_dial_transport net split opts addr ≡ ok d
unfolding safe_dial_transport safe_dial_context
IsSafe-connected net split opts addr d (h, b, (ips, l, p)) =
    rw
      (
        safe_dial_transport,
        h,
        IsPermitted-host_allowed opts d.host b,
        l,
        IsPinned-pinned (blocking opts) opts.allow_private_ips (d.ip ∷ ips) d.ip (ips, refl, p),
      )
      refl

-- A client with a safe dialer connects to an address exactly if the address to dial names a permitted
-- host and a port, the address is the first that the resolver has for that host, and none of the host's
-- addresses is blocked, unless private ones are let through.
pub safe_dial_transport-IsSafe :
    (net : Net) (split : Bytes → Result (Bytes × Bytes)) (opts : SafeDialOptions) (addr : Bytes)
    (d : Dialled)
    → (safe_dial_transport net split opts addr ≡ ok d) ↔ IsSafe net split opts addr d
safe_dial_transport-IsSafe net split opts addr d =
    (connected-IsSafe net split opts addr d, IsSafe-connected net split opts addr d)
