-- ===== src/Manifests/Contract.antt =====
-- manifest_set.go: what a contract's check finds, and which names a set has.
use toolsy.Prelude.{
  ◌≡◌, refl, ◌↔◌, inl, inr, String, true, false, not, ◌&&◌, Option, none, some, List, [], ◌∷◌,
  arith, is_empty, str_eq_iff, str_eq_refl, contains, Bool-cases, Option-cases,
}
use toolsy.Errors.{GoError, ToolError, as_tool_error}
use toolsy.Manifests.{ManifestSet, has, split_required, validate_manifest_contract}

module _ (ms : ManifestSet) where
  split_required-missing :
      (required seen : List String) (n : String)
      → contains (split_required ms seen required).1 n
        ≡ (contains required n && not (contains seen n) && not (has ms n))
  unfolding split_required
  split_required-missing [] seen n = ground arith
  split_required-missing (name ∷ names) seen n = elim (Bool-cases (contains seen name)) [
    | inl again ↦ ground (arith, again, split_required-missing names seen n, str_eq_iff name n)
    | inr new ↦ ground (arith, new, split_required-missing names (name ∷ seen) n, str_eq_iff name n)
  ]

  empty-contains : (l : List String) → is_empty l ≡ true → (n : String) → contains l n ≡ false
  empty-contains [] h n = refl
  empty-contains (x ∷ xs) h n = absurd (cc)

  contains-empty : (l : List String) → ((n : String) → contains l n ≡ false) → is_empty l ≡ true
  contains-empty [] h = refl
  contains-empty (x ∷ xs) h = absurd (ground (arith, h x, str_eq_refl x))

  -- The check passes exactly if every required name is there.
  validate_manifest_contract_complete :
      (required : List String)
      → (validate_manifest_contract ms required ≡ none)
        ↔ ((n : String) → contains required n ≡ true → has ms n ≡ true)
  unfolding validate_manifest_contract
  validate_manifest_contract_complete required = (
    (λ h n k. ground (
      arith,
      k,
      split_required-missing required [] n,
      empty-contains (split_required ms [] required).1 (ground (arith, h)) n,
    )),
    λ h.
        rw
          (contains-empty (split_required ms [] required).1
            (λ n. ground (arith, h n, split_required-missing required [] n)))
          refl,
  )

  -- Where the check fails, the fixable arguments of its error are what is missing.
  validate_manifest_contract-missing :
      (required : List String) (e : GoError)
      → validate_manifest_contract ms required ≡ some e
      → (te : ToolError) × (as_tool_error e ≡ some te)
        × ((n : String) → contains te.fixable_args n ≡ (contains required n && not (has ms n)))
  unfolding validate_manifest_contract as_tool_error
  validate_manifest_contract-missing required e h =
      let (unique, missing) = split_required ms [] required in
      elim (Option-cases (as_tool_error e)) [
        | inl nothing ↦ absurd (ground (arith, h, nothing))
        | inr (te, found) ↦
            (te, found, λ n. ground (arith, h, found, split_required-missing required [] n))
      ]

  -- What the check of a contract says of a set.
  abbrev pub IsVerdict : List String → Option GoError → Type 0
  IsVerdict required none = (n : String) → contains required n ≡ true → has ms n ≡ true
  IsVerdict required (some e) =
      (te : ToolError) × (as_tool_error e ≡ some te)
      × ((n : String) → contains te.fixable_args n ≡ (contains required n && not (has ms n)))
      × ((n : String) × (contains required n ≡ true) × (has ms n ≡ false))

  first_contained : (l : List String) → is_empty l ≡ false → (n : String) × (contains l n ≡ true)
  first_contained [] h = absurd (cc)
  first_contained (x ∷ xs) h = (x, rw (str_eq_refl x))

  lacks :
      (required : List String) (e : GoError)
      → validate_manifest_contract ms required ≡ some e
      → (n : String) × (contains required n ≡ true) × (has ms n ≡ false)
  unfolding validate_manifest_contract
  lacks required e h =
      let (n, listed) = first_contained (split_required ms [] required).1 (ground (arith, h)) in
      let split = split_required-missing required [] n in
      (n, ground (arith, listed, split), ground (arith, listed, split))

  -- If the check of a contract passes, the set has every required name, also where names are required
  -- twice; if it fails, the set lacks a required name, and the error is a tool error whose fixable
  -- arguments are exactly the required names that the set lacks.
  pub validate_manifest_contract-IsVerdict :
      (required : List String) → IsVerdict required (validate_manifest_contract ms required)
  validate_manifest_contract-IsVerdict required =
      elim (Option-cases (validate_manifest_contract ms required)) [
        | inl h ↦ rw h ((validate_manifest_contract_complete required).0 h)
        | inr (e, h) ↦
            let (te, found, same) = validate_manifest_contract-missing required e h in
            rw h (te, found, same, lacks required e h)
      ]
