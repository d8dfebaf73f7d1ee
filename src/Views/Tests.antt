-- ===== src/Views/Tests.antt =====
-- The theorems about views at the sample registry, with constant hashes.
use toolsy.Prelude.{refl, some, none, [], ◌∷◌}
use toolsy.Errors.{ok}
use toolsy.Policy.{compose_policies}
use toolsy.Registry.{lookup_tool, subset_with_policy, collect_tools}
use toolsy.Views.{
  RegistryViewSpec, RegistryViewSnapshot, RegistryView, Digests, restore_view, view, check_snapshot,
  check_restored, check_required, new_registry_view_snapshot, registry_view_policy_digest,
}
use toolsy.Views.Restore.{IsRestored, restore_view-same}
use toolsy.Samples.{registry, options}

abbrev digests : Digests
digests = record {
  sort = λ l. l;
  manifest_digest = λ find. ok "m1";
  policy_hash = λ id. "p1";
  snapshot_hash = λ s. ok "v1";
}

abbrev saved : RegistryViewSnapshot
saved = record {
  id = "v1";
  tool_names = some ("echo" ∷ []);
  required_tool_names = [];
  manifest_digest = "m1";
  policy_digest = "";
  reason = "";
  owner = "";
}

abbrev restored : RegistryView
restored = record {
  reg = record registry { opts = record options { view_id = "v1" } };
  snapshot = saved;
}

restore_view-same_example : IsRestored digests registry saved none restored
unfolding restore_view view check_snapshot check_restored check_required subset_with_policy
    collect_tools lookup_tool compose_policies new_registry_view_snapshot
    registry_view_policy_digest
restore_view-same_example = restore_view-same digests registry saved none "" {v = restored} refl

abbrev empty_spec : RegistryViewSpec
empty_spec = record {
  tool_names = some [];
  required_tool_names = [];
  reason = "";
  owner = "";
  policy = none;
  policy_id = "";
}

abbrev empty_view : RegistryView
empty_view = record {
  reg = record registry { tools = []; opts = record options { view_id = "v1" } };
  snapshot = record saved { tool_names = none };
}

abbrev full_view : RegistryView
full_view = record restored { snapshot = saved }
