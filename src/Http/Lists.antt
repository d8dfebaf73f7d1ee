-- ===== src/Http/Lists.antt =====
-- toolkits/httptool/transport.go (normalizeHostPolicy, hostAllowed): the hosts that two lists permit.
use toolsy.Prelude.{
  true, false, not, ◌&&◌, List, [], ◌∷◌, ◌≡◌, refl, inl, inr, arith, is_empty, Bool-cases,
  if◌then◌else◌,
}
use toolsy.Bytes.{Bytes, same_bytes, same_bytes→eq, contains_bytes}
use toolsy.Http.{
  HostPolicy, normal, host_in_list, normalize_host_list, normalize_host_policy, conflicts,
  host_allowed, policy_allows,
}
use toolsy.Http.Dial.{SafeDialOptions}
use toolsy.Http.Hosts.{IsUnderSome, host_in_list-IsUnderSome, IsUnderSome-host_in_list}

conflicts-both :
    (hosts blocked : List Bytes) (h : Bytes)
    → contains_bytes (conflicts hosts blocked) h ≡ contains_bytes hosts h && host_in_list h blocked
unfolding contains_bytes
conflicts-both [] blocked h = refl
conflicts-both (x ∷ hosts) blocked h = elim (Bool-cases (same_bytes x h)) [
  | inl s ↦
      let e = same_bytes→eq x h s in
      elim (Bool-cases (host_in_list x blocked)) [
        | inl b ↦ ground (arith, s, b, rw e at b)
        | inr b ↦ ground (arith, s, b, rw e at b, conflicts-both hosts blocked h)
      ]
  | inr s ↦ elim (Bool-cases (host_in_list x blocked)) [
    | inl b ↦ ground (arith, s, b, conflicts-both hosts blocked h)
    | inr b ↦ ground (arith, s, b, conflicts-both hosts blocked h)
  ]
]

-- The hosts of a whitelist that is not empty, or those that no blacklist has. A host that stands in the
-- whitelist itself must not be one of the blacklist's.
abbrev pub IsListed : List Bytes → List Bytes → Bytes → Type 0
IsListed [] blocked h = ¬ IsUnderSome h blocked
IsListed (x ∷ allowed) blocked h =
    IsUnderSome h (x ∷ allowed)
    × ¬ ((contains_bytes (x ∷ allowed) h ≡ true) × IsUnderSome h blocked)

-- The policy that a whitelist and a blacklist of normal hosts give.
abbrev policy_of : List Bytes → List Bytes → HostPolicy
policy_of a b = record {
  whitelist = not (is_empty a);
  allowed = a;
  blocked = b;
  conflict_deny = if not (is_empty a) then conflicts a b else [];
}

policy_allows-IsListed :
    (a b : List Bytes) (h : Bytes) → policy_allows h (policy_of a b) ≡ true → IsListed a b h
policy_allows-IsListed [] b h k =
    λ u. let m = IsUnderSome-host_in_list h b u in ground (arith, k, m)
policy_allows-IsListed (x ∷ a) b h k = elim (Bool-cases (host_in_list h (x ∷ a))) [
  | inr m ↦ absurd (ground (arith, k, m))
  | inl m ↦ (
    host_in_list-IsUnderSome h (x ∷ a) m,
    λ (c, u).
        let n = IsUnderSome-host_in_list h b u in
        let both = conflicts-both (x ∷ a) b h in ground (arith, k, m, c, n, both),
  )
]

IsListed-policy_allows :
    (a b : List Bytes) (h : Bytes) → IsListed a b h → policy_allows h (policy_of a b) ≡ true
IsListed-policy_allows [] b h k = elim (Bool-cases (host_in_list h b)) [
  | inl m ↦ absurd (k (host_in_list-IsUnderSome h b m))
  | inr m ↦ rw m refl
]
IsListed-policy_allows (x ∷ a) b h (u, k) =
    let m = IsUnderSome-host_in_list h (x ∷ a) u in
    let both = conflicts-both (x ∷ a) b h in
    elim (Bool-cases (contains_bytes (x ∷ a) h)) [
      | inr c ↦ ground (arith, m, both, c)
      | inl c ↦ elim (Bool-cases (host_in_list h b)) [
        | inl n ↦ absurd (k (c, host_in_list-IsUnderSome h b n))
        | inr n ↦ ground (arith, m, both, c, n)
      ]
    ]

abbrev pub IsPermitted : SafeDialOptions → Bytes → Type 0
IsPermitted opts host =
    (is_empty (normal host) ≡ false)
    × IsListed (normalize_host_list opts.allowed_hosts) (normalize_host_list opts.blocked_hosts)
        (normal host)

pub host_allowed-IsPermitted :
    (opts : SafeDialOptions) (host : Bytes)
    → host_allowed host (normalize_host_policy opts.allowed_hosts opts.blocked_hosts) ≡ true
    → IsPermitted opts host
unfolding host_allowed normalize_host_policy
host_allowed-IsPermitted opts host k = elim (Bool-cases (is_empty (normal host))) [
  | inl e ↦ absurd (cc (rw (host_allowed, e) at k))
  | inr e ↦ (
    e,
    policy_allows-IsListed (normalize_host_list opts.allowed_hosts)
        (normalize_host_list opts.blocked_hosts) (normal host) (rw (host_allowed, e) at k),
  )
]

pub IsPermitted-host_allowed :
    (opts : SafeDialOptions) (host : Bytes)
    → IsPermitted opts host
    → host_allowed host (normalize_host_policy opts.allowed_hosts opts.blocked_hosts) ≡ true
unfolding host_allowed normalize_host_policy
IsPermitted-host_allowed opts host (e, l) =
    rw (host_allowed, e)
      (IsListed-policy_allows (normalize_host_list opts.allowed_hosts)
        (normalize_host_list opts.blocked_hosts) (normal host) l)
