-- ===== src/Views.antt =====
-- registry_view.go: views of a registry that are saved and restored by a snapshot.
--
-- Hashes and sorting are the standard library's, a `Digests`. The digest of the manifests goes over the
-- map of the tools in the order of the names, so that it is a function of what each name finds.
pub mod Restore
mod Tests
use toolsy.Prelude.{
  String, Bool, true, false, not, ◌&&◌, ◌||◌, Option, none, some, List, [], ◌∷◌, ◌++◌, map,
  is_empty, str_eq, if◌then◌else◌,
}
use toolsy.Errors.{
  GoError, Text, lit, message, ToolInfo, code_tools_contract_missing, to_error,
  new_validation_error, Result, ok, err, ◌>>=◌,
}
use toolsy.Tool.{Tool}
use toolsy.Policy.{Policy, compose_policies}
use toolsy.Registry.{ToolMap, Registry, lookup_tool, subset_with_policy}
use toolsy.Manifests.{new_manifest_set, validate_manifest_contract}

-- `ToolNames` is nil or a list, here and in a snapshot.
pub record RegistryViewSpec : Type 0 where
  pub tool_names : Option (List String)
  pub required_tool_names : List String
  pub reason : String
  pub owner : String
  pub policy : Option Policy
  pub policy_id : String

pub record RegistryViewSnapshot : Type 0 where
  pub id : String
  pub tool_names : Option (List String)
  pub required_tool_names : List String
  pub manifest_digest : String
  pub policy_digest : String
  pub reason : String
  pub owner : String

pub record RegistryView : Type 0 where
  pub reg : Registry
  pub snapshot : RegistryViewSnapshot

pub record Digests : Type 0 where
  -- slices.Sort
  pub sort : List String → List String
  -- what registryManifestDigest computes of the map of the tools
  pub manifest_digest : (String → Option Tool) → Result String
  -- the hash of a policy's id, and of a snapshot's encoding
  pub policy_hash : String → String
  pub snapshot_hash : RegistryViewSnapshot → Result String

abbrev pub tool_names : Registry → List String
tool_names r = map (λ p. p.0) r.tools

abbrev pub has_policy : Option Policy → Bool
has_policy none = false
has_policy (some p) = true

unfoldable pub registry_view_policy_digest : Digests → String → String
registry_view_policy_digest d id = if str_eq id "" then "" else d.policy_hash id

-- registryViewSnapshotID; the id of the snapshot that is hashed is empty.
abbrev pub with_id : Digests → RegistryViewSnapshot → Result RegistryViewSnapshot
with_id d s = do id ← d.snapshot_hash (record s { id = "" }); ok (record s { id = id })

-- A snapshot's list is a copy by `append` to nil, which is nil if there is nothing to copy.
abbrev pub copied : List String → Option (List String)
copied [] = none
copied (n ∷ ns) = some (n ∷ ns)

unfoldable pub new_registry_view_snapshot :
    Digests → RegistryViewSpec → List String → Registry → Result RegistryViewSnapshot
unfolding registry_view_policy_digest lookup_tool
new_registry_view_snapshot d spec names reg = do
  digest ← d.manifest_digest (lookup_tool reg.tools)
  with_id d (record {
    id = "";
    tool_names = copied (d.sort names);
    required_tool_names = d.sort spec.required_tool_names;
    manifest_digest = digest;
    policy_digest = registry_view_policy_digest d spec.policy_id;
    reason = spec.reason;
    owner = spec.owner;
  })

abbrev pub policy_mismatch : RegistryViewSpec → Option GoError
policy_mismatch spec =
    if has_policy spec.policy && str_eq spec.policy_id ""
    then some (to_error (new_validation_error (lit "registry view policy id is required" ∷ []) []))
    else if not (has_policy spec.policy) && not (str_eq spec.policy_id "")
    then some (
        to_error (
          new_validation_error (lit "registry view policy is required when policy id is set" ∷ [])
            []))
    else none

abbrev pub failing : Option GoError → Result Bool
failing none = ok true
failing (some e) = err e

-- The check of the required tools on a subset.
unfoldable pub check_required : Registry → List String → Result Bool
unfolding validate_manifest_contract
check_required reg [] = ok true
check_required reg (n ∷ ns) = do
  ms ← new_manifest_set (map (λ p. some p.1) reg.tools)
  failing (validate_manifest_contract ms (n ∷ ns))

abbrev pub spec_names : Registry → Option (List String) → List String
spec_names r none = tool_names r
spec_names r (some names) = names

-- Registry.View
unfoldable pub view : Digests → Registry → RegistryViewSpec → Result RegistryView
unfolding subset_with_policy check_required new_registry_view_snapshot compose_policies
view d r spec = do
  checked ← failing (policy_mismatch spec)
  subset ← subset_with_policy r none (spec_names r spec.tool_names)
  required ← check_required subset spec.required_tool_names
  snapshot ← new_registry_view_snapshot d spec (spec_names r spec.tool_names) subset
  ok (record {
    reg = record subset {
      opts = record subset.opts {
        policy = compose_policies subset.opts.policy spec.policy;
        view_id = snapshot.id;
      };
    };
    snapshot = snapshot;
  })

abbrev pub mismatch : String → String → GoError
mismatch reason arg =
    GoError.tool
      (record {
        code = code_tools_contract_missing;
        retryable = false;
        reason = lit "registry view snapshot " ∷ lit reason ∷ [];
        fixable_args = arg ∷ [];
        safe_message = [];
      })
      (message (lit "registry view snapshot " ∷ lit reason ∷ []))

abbrev pub reject_if : Bool → String → String → Option GoError → Option GoError
reject_if true reason arg rest = some (mismatch reason arg)
reject_if false reason arg rest = rest

-- The checks of RestoreView before it makes the view, and after.
unfoldable pub check_snapshot : RegistryViewSnapshot → Option Policy → String → Option GoError
check_snapshot s p id = reject_if (str_eq s.id "") "missing id" "id" (
    reject_if (str_eq s.manifest_digest "") "missing manifest digest" "manifest_digest" (
      reject_if (not (str_eq s.policy_digest "") && not (has_policy p)) "missing policy" "policy" (
        reject_if (not (str_eq s.policy_digest "") && str_eq id "") "missing policy id" "policy_id"
          (reject_if (str_eq s.policy_digest "" && has_policy p) "unexpected policy" "policy" (
            reject_if (str_eq s.policy_digest "" && not (str_eq id "")) "unexpected policy id"
              "policy_id" none)))))

unfoldable pub check_restored : RegistryViewSnapshot → RegistryViewSnapshot → Option GoError
check_restored s t =
    reject_if (not (str_eq s.manifest_digest t.manifest_digest)) "manifest digest mismatch"
      "manifest_digest"
      (reject_if (not (str_eq s.policy_digest t.policy_digest)) "policy digest mismatch"
        "policy_digest" (reject_if (not (str_eq s.id t.id)) "id mismatch" "id" none))

abbrev pub restored_spec : RegistryViewSnapshot → Option Policy → String → RegistryViewSpec
restored_spec s p id = record {
  tool_names = s.tool_names;
  required_tool_names = s.required_tool_names;
  reason = s.reason;
  owner = s.owner;
  policy = p;
  policy_id = id;
}

-- Registry.RestoreView; without a policy id it is the empty one.
unfoldable pub restore_view :
    Digests → Registry → RegistryViewSnapshot → Option Policy → String → Result RegistryView
unfolding check_snapshot view check_restored
restore_view d r s p id = do
  accepted ← failing (check_snapshot s p id)
  v ← view d r (restored_spec s p id)
  same ← failing (check_restored s v.snapshot)
  ok v
