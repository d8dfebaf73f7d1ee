-- ===== src/Views/Restore.antt =====
-- registry_view.go: what a restored view is, and that a saved view is restored.
use toolsy.Prelude.{
  ◌≡◌, refl, ◌↔◌, inl, inr, ap, sym, ◌∙◌, subst, String, Bool, Option, none, some, List, arith,
  str_eq_iff, contains, if◌then◌else◌, Option-cases,
}
use toolsy.Errors.{GoError, ok, Result-cases, ok_injective}
use toolsy.Policy.{Policy}
use toolsy.Registry.{Registry, lookup_tool, subset_with_policy}
use toolsy.Registry.Subsets.{subset_with_policy-tools}
use toolsy.Views.{
  RegistryViewSpec, RegistryViewSnapshot, RegistryView, Digests, new_registry_view_snapshot,
  policy_mismatch, failing, check_required, spec_names, view, check_snapshot, check_restored,
  restored_spec, restore_view, tool_names,
}

failing-none : (o : Option GoError) {b : Bool} → failing o ≡ ok b → o ≡ none
failing-none none h = refl
failing-none (some e) h = absurd (cc)

check_restored-same :
    (s t : RegistryViewSnapshot)
    → check_restored s t ≡ none
    → (t.id ≡ s.id) × (t.manifest_digest ≡ s.manifest_digest) × (t.policy_digest ≡ s.policy_digest)
unfolding check_restored
check_restored-same s t h = ground (
  arith,
  h,
  str_eq_iff s.id t.id,
  str_eq_iff s.manifest_digest t.manifest_digest,
  str_eq_iff s.policy_digest t.policy_digest,
)

check_snapshot-policy :
    (s : RegistryViewSnapshot) (p : Option Policy) (id : String)
    → check_snapshot s p id ≡ none
    → (p ≡ none) ↔ (s.policy_digest ≡ "")
unfolding check_snapshot
check_snapshot-policy s p id h = (
  (λ k. ground (arith, h, k, str_eq_iff s.policy_digest "")),
  λ k. ground (arith, h, k, str_eq_iff s.policy_digest "", Option-cases p),
)

module _ (d : Digests) (r : Registry) where
  -- What View makes of a spec: the subset of its names, with the policy on top and the snapshot's id.
  view-parts :
      (spec : RegistryViewSpec) {v : RegistryView}
      → view d r spec ≡ ok v
      → (subset : Registry) × (subset_with_policy r none (spec_names r spec.tool_names) ≡ ok subset)
        × (new_registry_view_snapshot d spec (spec_names r spec.tool_names) subset ≡ ok v.snapshot)
        × (v.reg.tools ≡ subset.tools)
        × (v.reg.opts.view_id ≡ v.snapshot.id)
  unfolding view
  view-parts spec {v} h =
      let chosen = spec_names r spec.tool_names in
      elim (Result-cases (failing (policy_mismatch spec))) [
        | inr (e, bad) ↦ absurd (cc (rw (bad, view) at h))
        | inl (a, checked) ↦ elim (Result-cases (subset_with_policy r none chosen)) [
          | inr (e, bad) ↦ absurd (cc (rw (checked, bad, view) at h))
          | inl (subset, sub) ↦
              elim (Result-cases (check_required subset spec.required_tool_names)) [
                | inr (e, bad) ↦ absurd (cc (rw (checked, sub, bad, view) at h))
                | inl (b, required) ↦
                    elim (Result-cases (new_registry_view_snapshot d spec chosen subset)) [
                      | inr (e, bad) ↦ absurd (cc (rw (checked, sub, required, bad, view) at h))
                      | inl (snap, new) ↦
                          let same = ok_injective (rw (checked, sub, required, new, view) at h) in
                          (
                            subset,
                            sub,
                            new ∙ ap (λ x. ok x.snapshot) same,
                            ap (λ x. x.reg.tools) (sym same),
                            ap (λ x. x.reg.opts.view_id) (sym same) ∙ ap (λ x. x.snapshot.id) same,
                          )
                    ]
              ]
        ]
      ]

  -- What a restored view has of the snapshot.
  abbrev pub IsRestored : RegistryViewSnapshot → Option Policy → RegistryView → Type 0
  IsRestored s p v =
      (v.snapshot.id ≡ s.id)
      × (v.snapshot.manifest_digest ≡ s.manifest_digest)
      × (v.snapshot.policy_digest ≡ s.policy_digest)
      × ((p ≡ none) ↔ (s.policy_digest ≡ ""))
      × (v.reg.opts.view_id ≡ s.id)
      × ((names : List String)
          → s.tool_names ≡ some names
          → (n : String)
          → lookup_tool v.reg.tools n ≡ (if contains names n then lookup_tool r.tools n else none))

  made-IsRestored :
      (s : RegistryViewSnapshot) (p : Option Policy) (id : String) (v : RegistryView)
      → check_snapshot s p id ≡ none
      → view d r (restored_spec s p id) ≡ ok v
      → check_restored s v.snapshot ≡ none
      → IsRestored s p v
  made-IsRestored s p id v accepted made same =
      let (same_id, same_manifests, same_policy) = check_restored-same s v.snapshot same in
      let (subset, sub, new, tools, view_id) = view-parts (restored_spec s p id) made in
      (
        same_id,
        same_manifests,
        same_policy,
        check_snapshot-policy s p id accepted,
        view_id ∙ same_id,
        λ names some_names n. rw (tools) (
            subst
              (λ l.
                lookup_tool subset.tools n ≡ (if contains l n then lookup_tool r.tools n else none))
              (ap (spec_names r) some_names)
              ((subset_with_policy-tools r none (spec_names r s.tool_names) sub).0 n)),
      )

  -- RestoreView makes the view of the snapshot's spec, between its checks.
  restore_view-parts :
      (s : RegistryViewSnapshot) (p : Option Policy) (id : String) {v : RegistryView}
      → restore_view d r s p id ≡ ok v
      → (check_snapshot s p id ≡ none)
        × (view d r (restored_spec s p id) ≡ ok v)
        × (check_restored s v.snapshot ≡ none)
  unfolding restore_view
  restore_view-parts s p id {v} h = elim (Result-cases (failing (check_snapshot s p id))) [
    | inr (e, bad) ↦ absurd (cc (rw (bad, restore_view) at h))
    | inl (a, accepted) ↦ elim (Result-cases (view d r (restored_spec s p id))) [
      | inr (e, bad) ↦ absurd (cc (rw (accepted, bad, restore_view) at h))
      | inl (w, made) ↦ elim (Result-cases (failing (check_restored s w.snapshot))) [
        | inr (e, bad) ↦ absurd (cc (rw (accepted, made, bad, restore_view) at h))
        | inl (b, same) ↦
            let got = rw (accepted, made, same, restore_view) at h in
            (
              failing-none _ accepted,
              made ∙ got,
              subst (λ x. check_restored s x.snapshot ≡ none) (ok_injective got)
                  (failing-none _ same),
            )
      ]
    ]
  ]

  -- A view that RestoreView returns has the identity, the manifest digest and the policy digest of the
  -- snapshot, and finds the tools of the registry whose names the snapshot lists, if its list is not nil; it
  -- is given a policy exactly if the snapshot has a policy digest.
  pub restore_view-same :
      (s : RegistryViewSnapshot) (p : Option Policy) (id : String) {v : RegistryView}
      → restore_view d r s p id ≡ ok v
      → IsRestored s p v
  restore_view-same s p id {v} h =
      let (accepted, made, same) = restore_view-parts s p id h in
      made-IsRestored s p id v accepted made same
