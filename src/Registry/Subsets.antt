-- ===== src/Registry/Subsets.antt =====
-- registry.go (Subset, subsetWithPolicy): what a subset of a registry holds.
use toolsy.Prelude.{
  ◌≡◌, refl, ◌≢◌, inl, inr, ap, sym, subst, ◌↔◌, ◌∙◌, String, true, false, Option, none, List, [],
  ◌∷◌, arith, if◌then◌else◌, str_eq, str_eq_iff, contains, Bool-cases, Option-cases, All,
}
use toolsy.Errors.{ok, Result-cases, ok_injective}
use toolsy.Tool.{Tool}
use toolsy.Policy.{Policy, PolicyRequest, compose_policies, evaluate_policy}
use toolsy.Policy.Composition.{compose_policies-allows}
use toolsy.Registry.{ToolMap, Registry, lookup_tool, collect_tools, subset_with_policy}

module _ (all_tools : ToolMap) where
  -- What a name finds after the loop went over `names`.
  abbrev expected : List String → ToolMap → List String → String → Option Tool
  expected seen out names n =
      if contains seen n
      then lookup_tool out n
      else if contains names n
      then lookup_tool all_tools n
      else lookup_tool out n

  collect_tools-expected :
      (names seen : List String) (out m : ToolMap)
      → collect_tools all_tools seen out names ≡ ok m
      → (n : String) → lookup_tool m n ≡ expected seen out names n
  unfolding collect_tools lookup_tool
  collect_tools-expected [] seen out m h n = ground (arith, h)
  collect_tools-expected (name ∷ names) seen out m h n = elim (Bool-cases (contains seen name)) [
    | inl again ↦
        let later = collect_tools-expected names seen out m (ground (arith, h, again)) n in
        ground (arith, later, again, str_eq_iff name n)
    | inr new ↦ elim (Option-cases (lookup_tool all_tools name)) [
      | inl unknown ↦ absurd (ground (arith, h, new, unknown))
      | inr (t, found) ↦
          let later =
            collect_tools-expected names (name ∷ seen) ((name, t) ∷ out) m
              (ground (arith, h, new, found)) n in
          ground (arith, later, new, found, str_eq_iff name n)
    ]
  ]

  collect_tools-known :
      (names seen : List String) (out m : ToolMap)
      → collect_tools all_tools seen out names ≡ ok m
      → (n : String) → contains seen n ≡ false
      → contains names n ≡ true
      → lookup_tool all_tools n ≢ none
  unfolding collect_tools
  collect_tools-known [] seen out m h n k l = absurd (cc)
  collect_tools-known (name ∷ names) seen out m h n k l = elim (Bool-cases (contains seen name)) [
    | inl again ↦
        collect_tools-known names seen out m (ground (arith, h, again)) n k
          (ground (arith, l, k, again, str_eq_iff name n))
    | inr new ↦ elim (Option-cases (lookup_tool all_tools name)) [
      | inl unknown ↦ absurd (ground (arith, h, new, unknown))
      | inr (t, found) ↦ elim (Bool-cases (str_eq name n)) [
        | inl same ↦ ground (arith, found, same, str_eq_iff name n)
        | inr other ↦
            collect_tools-known names (name ∷ seen) ((name, t) ∷ out) m
              (ground (arith, h, new, found)) n (ground (arith, k, other))
              (ground (arith, l, other))
      ]
    ]
  ]

  collect_tools-total :
      (names seen : List String) (out : ToolMap)
      → All (λ n. lookup_tool all_tools n ≢ none) names
      → (m : ToolMap) × (collect_tools all_tools seen out names ≡ ok m)
  unfolding collect_tools
  collect_tools-total [] seen out h = (out, refl)
  collect_tools-total (name ∷ names) seen out h = elim (Bool-cases (contains seen name)) [
    | inl again ↦
        let later = collect_tools-total names seen out h.1 in
        (later.0, ground (arith, later.1, again))
    | inr new ↦ elim (Option-cases (lookup_tool all_tools name)) [
      | inl unknown ↦ absurd (h.0 unknown)
      | inr (t, found) ↦
          let later = collect_tools-total names (name ∷ seen) ((name, t) ∷ out) h.1 in
          (later.0, ground (arith, later.1, new, found))
    ]
  ]

-- A subset finds exactly the allowed names, each with the tool of the registry, which has them all; it
-- lets a request through exactly if the registry's policy and the given one both do, and it has the same
-- runtime state, at the same address.
pub subset_with_policy-tools :
    (r : Registry) (p : Option Policy) (allowed : List String) {v : Registry}
    → subset_with_policy r p allowed ≡ ok v
    → ((n : String)
        → lookup_tool v.tools n ≡ (if contains allowed n then lookup_tool r.tools n else none))
      × ((n : String) → contains allowed n ≡ true → lookup_tool r.tools n ≢ none)
      × ((req : PolicyRequest)
          → (evaluate_policy v.opts.policy req ≡ none)
            ↔ ((evaluate_policy r.opts.policy req ≡ none) × (evaluate_policy p req ≡ none)))
      × (v.has_state ≡ r.has_state)
      × (v.state_address ≡ r.state_address)
unfolding subset_with_policy
subset_with_policy-tools r p allowed {v} h = elim (Bool-cases r.has_state) [
  | inr zero_value ↦ absurd (ground (arith, h, zero_value))
  | inl state ↦ elim (Result-cases (collect_tools r.tools [] [] allowed)) [
    | inr (e, bad) ↦ absurd (cc (rw (state, bad) at h))
    | inl (m, good) ↦
        let same = ok_injective (rw (state, good) at h) in
        (
          (λ n. ground (
            arith,
            ap (λ x. x.tools) same,
            collect_tools-expected r.tools allowed [] [] m good n,
          )),
          (λ n k. collect_tools-known r.tools allowed [] [] m good n refl k),
          (λ req.
              subst
                (λ x.
                  (evaluate_policy x.opts.policy req ≡ none)
                  ↔ ((evaluate_policy r.opts.policy req ≡ none) × (evaluate_policy p req ≡ none)))
                same (compose_policies-allows r.opts.policy p req)),
          ap (λ x. x.has_state) (sym same) ∙ sym state,
          ap (λ x. x.state_address) (sym same),
        )
  ]
]

-- A registry that was built makes a subset of any names that it has.
pub subset_with_policy-total :
    (r : Registry) (p : Option Policy) (allowed : List String)
    → r.has_state ≡ true
    → All (λ n. lookup_tool r.tools n ≢ none) allowed
    → (v : Registry) × (subset_with_policy r p allowed ≡ ok v)
unfolding subset_with_policy
subset_with_policy-total r p allowed state known =
    let (m, good) = collect_tools-total r.tools allowed [] [] known in
    (
      record {
        tools = m;
        opts = record r.opts { policy = compose_policies r.opts.policy p };
        has_state = true;
        state_address = r.state_address;
      },
      rw (state, good) refl,
    )
