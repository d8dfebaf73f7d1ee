-- ===== src/Policy/Composition.antt =====
-- policy.go: a policy composed of two denies what either denies, and never loses a denial.
use toolsy.Prelude.{◌≡◌, refl, ◌↔◌, ◌||◌, Option, none, some, arith, if◌then◌else◌}
use toolsy.Errors.{ToolError}
use toolsy.Policy.{
  Policy, PolicyRequest, Decision, decision_error, evaluate_policy, composite_decide,
  compose_policies, policy_enforces_requirements,
}

-- A denial that goes through the composed policy comes out as it was.
denial_again :
    (d : Decision) (p q : Policy) (req : PolicyRequest)
    → p.decide req ≡ d
    → decision_error (composite_decide p q req)
      ≡ (if d.allow then decision_error (q.decide req) else decision_error d)
unfolding composite_decide
denial_again d p q req h = ground (arith, h)

composite_error :
    (p q : Policy) (req : PolicyRequest)
    → evaluate_policy (compose_policies (some p) (some q)) req ≡ (
        if (p.decide req).allow
        then decision_error (q.decide req)
        else decision_error (p.decide req))
unfolding compose_policies
composite_error p q req = denial_again (p.decide req) p q req refl

-- The composed policy lets a request through exactly when both policies do.
pub compose_policies-allows :
    (first second : Option Policy) (req : PolicyRequest)
    → (evaluate_policy (compose_policies first second) req ≡ none)
      ↔ ((evaluate_policy first req ≡ none) × (evaluate_policy second req ≡ none))
unfolding compose_policies
compose_policies-allows none second req = ((λ h. (refl, h)), λ h. h.1)
compose_policies-allows (some p) none req = ((λ h. (h, refl)), λ h. h.0)
compose_policies-allows (some p) (some q) req = (
  (λ h. ground (arith, composite_error p q req, h)),
  λ h. ground (arith, composite_error p q req, h.0, h.1),
)

-- A denial of the first policy is the answer of both, unchanged, whatever the second would decide.
pub compose_policies-first :
    (first second : Option Policy) (req : PolicyRequest) {te : ToolError}
    → evaluate_policy first req ≡ some te
    → evaluate_policy (compose_policies first second) req ≡ some te
unfolding compose_policies evaluate_policy
compose_policies-first none second req h = cc
compose_policies-first (some p) none req h = h
compose_policies-first (some p) (some q) req h = ground (arith, composite_error p q req, h)

pub compose_policies-enforces :
    (first second : Option Policy)
    → policy_enforces_requirements (compose_policies first second)
      ≡ (policy_enforces_requirements first || policy_enforces_requirements second)
unfolding compose_policies
compose_policies-enforces none second = refl
compose_policies-enforces (some p) none = ground arith
compose_policies-enforces (some p) (some q) = refl
