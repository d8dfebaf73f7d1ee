-- ===== src/Http.antt =====
-- toolkits/httptool: the tools that make HTTP requests, and what keeps them from hosts and addresses that
-- they must not reach. The parse of URLs, the resolver, the dialer and the server are parameters.
--
-- This file: toolkits/httptool/hosts.go and the host policy of toolkits/httptool/transport.go. A host is
-- the list of its bytes, which are ASCII.
pub mod Address
pub mod Dial
pub mod Request
pub mod Hosts
pub mod Lists
pub mod Urls
pub mod Safety
pub mod Redirects
pub mod Guard
mod Tests
use toolsy.Prelude.{
  ℕ, ◌+◌, Bool, true, false, not, ◌&&◌, ◌||◌, List, [], ◌∷◌, map, length, is_empty, ltb, leb, ◌==◌,
  if◌then◌else◌,
}
use toolsy.Bytes.{Bytes, bytes, same_bytes, contains_bytes, trim_space}

-- strings.ToLower
abbrev pub to_lower : Bytes → Bytes
to_lower h = map (λ c. if leb 65 c && leb c 90 then c + 32 else c) h

-- strings.TrimSpace(strings.ToLower(host))
abbrev pub normal : Bytes → Bytes
normal h = trim_space (to_lower h)

-- strings.HasSuffix
unfoldable pub has_suffix : Bytes → Bytes → Bool
unfolding same_bytes
has_suffix [] suffix = same_bytes [] suffix
has_suffix (c ∷ h) suffix = same_bytes (c ∷ h) suffix || has_suffix h suffix

-- MatchHost of a host and an entry that are normal; the entry is not empty.
unfoldable pub match_entry : Bytes → Bytes → Bool
unfolding same_bytes has_suffix
match_entry h [] = false
match_entry h (c ∷ base) =
    same_bytes h (c ∷ base)
    || (if c == 46
        then not (same_bytes h base) && has_suffix h (c ∷ base)
        else ltb (length (c ∷ base)) (length h) && has_suffix h (46 ∷ c ∷ base))

-- MatchHost
unfoldable pub match_host : Bytes → Bytes → Bool
unfolding match_entry
match_host host entry = match_entry (normal host) (normal entry)

-- hostInList, and HostMatchesAllowedDomains
unfoldable pub host_in_list : Bytes → List Bytes → Bool
unfolding match_host
host_in_list h [] = false
host_in_list h (entry ∷ entries) = match_host h entry || host_in_list h entries

-- HostBlocked
unfoldable pub host_blocked : Bytes → List Bytes → Bool
unfolding host_in_list
host_blocked h blocked = host_in_list (normal h) blocked

pub record HostPolicy : Type 0 where
  pub whitelist : Bool
  pub allowed : List Bytes
  pub blocked : List Bytes
  pub conflict_deny : List Bytes

abbrev pub normalize_host_list : List Bytes → List Bytes
normalize_host_list [] = []
normalize_host_list (h ∷ hosts) =
    let rest = normalize_host_list hosts in if is_empty (normal h) then rest else normal h ∷ rest

-- The allowed hosts that the blocked ones match.
abbrev pub conflicts : List Bytes → List Bytes → List Bytes
conflicts [] blocked = []
conflicts (h ∷ hosts) blocked =
    let rest = conflicts hosts blocked in if host_in_list h blocked then h ∷ rest else rest

unfoldable pub normalize_host_policy : List Bytes → List Bytes → HostPolicy
unfolding host_in_list
normalize_host_policy allowed blocked =
    let a = normalize_host_list allowed in
    let b = normalize_host_list blocked in
    let whitelist = not (is_empty a) in
    record {
      whitelist = whitelist;
      allowed = a;
      blocked = b;
      conflict_deny = if whitelist then conflicts a b else [];
    }

abbrev pub policy_allows : Bytes → HostPolicy → Bool
policy_allows h p =
    if p.whitelist
    then not (contains_bytes p.conflict_deny h) && host_in_list h p.allowed
    else not (host_in_list h p.blocked)

-- hostAllowed
unfoldable pub host_allowed : Bytes → HostPolicy → Bool
unfolding host_in_list
host_allowed host p = not (is_empty (normal host)) && policy_allows (normal host) p
