-- ===== src/Registry/Building.antt =====
-- registry.go (Build): what a registry that was built holds.
use toolsy.Prelude.{
  suc, ◌+◌, ◌≤◌, ◌≡◌, refl, inl, inr, String, false, Option, none, some, List, [], ◌∷◌, arith, ap,
  sym, subst, ltb, str_eq, str_eq_iff, str_eq_refl, Bool-cases, All, length,
}
use toolsy.Errors.{ok, Result-cases, ok_injective}
use toolsy.Tool.{Tool, Middleware, manifest, count_async_layers}
use toolsy.Registry.{
  ToolMap, Registry, RegistryBuilder, lookup_tool, wrap_tool, add_tool, build_one, build_tools,
  build, policy_without_id,
}

-- What the registry has to hold of one tool of the builder: the wrapped tool, under its name, which is
-- not empty, and with one async layer at most in what was added.
pub record IsRegistered (ms : List Middleware) (m : ToolMap) (raw : Option Tool) : Type 0 where
  pub tool : Tool
  pub given : raw ≡ some tool
  pub named : str_eq (manifest (wrap_tool ms tool)).name "" ≡ false
  pub single : count_async_layers tool ≤ 1
  pub found : lookup_tool m (manifest (wrap_tool ms tool)).name ≡ some (wrap_tool ms tool)

-- What is in the map stays in it.
abbrev Extends : ToolMap → ToolMap → Type 0
Extends m n = (name : String) (t : Tool) → lookup_tool m name ≡ some t → lookup_tool n name ≡ some t

-- Where a tool was added: its name was free, and is not empty.
add_tool-ok :
    (m m' : ToolMap) (t : Tool)
    → add_tool m t ≡ ok m'
    → (str_eq (manifest t).name "" ≡ false)
      × (lookup_tool m (manifest t).name ≡ none)
      × (m' ≡ ((manifest t).name, t) ∷ m)
unfolding add_tool
add_tool-ok m m' t h = ground arith

Extends-add :
    (m : ToolMap) (name : String) (t : Tool) → lookup_tool m name ≡ none → Extends m ((name, t) ∷ m)
unfolding lookup_tool
Extends-add m name t free n u found = ground (arith, str_eq_iff name n)

Extends-trans : (a b c : ToolMap) → Extends a b → Extends b c → Extends a c
Extends-trans a b c f g n t h = g n t (f n t h)

module _ (ms : List Middleware) where
  IsRegistered-later :
      {m n : ToolMap} {raw : Option Tool}
      → Extends m n
      → IsRegistered ms m raw
      → IsRegistered ms n raw
  IsRegistered-later e r = record {
    tool = r.tool;
    given = r.given;
    named = r.named;
    single = r.single;
    found = e _ _ r.found;
  }

  build_one-IsRegistered :
      (m m' : ToolMap) (raw : Option Tool)
      → build_one ms m raw ≡ ok m'
      → IsRegistered ms m' raw × Extends m m' × (length m' ≡ suc (length m))
  unfolding build_one
  build_one-IsRegistered m m' none h = absurd (cc)
  build_one-IsRegistered m m' (some t) h = elim (Bool-cases (ltb 1 (count_async_layers t))) [
    | inl many ↦ absurd (cc (rw many at h))
    | inr single ↦
        let w = wrap_tool ms t in
        let a = add_tool-ok m m' w (rw single at h) in
        let here : lookup_tool (((manifest w).name, w) ∷ m) (manifest w).name ≡ some w =
          unfold lookup_tool in rw (str_eq_refl (manifest w).name) in
        (
          record {
            tool = t;
            given = refl;
            named = a.0;
            single = ground (arith, single);
            found = subst (λ x. lookup_tool x (manifest w).name ≡ some w) (sym a.2) here;
          },
          subst (Extends m) (sym a.2) (Extends-add m (manifest w).name w a.1),
          ap length a.2,
        )
  ]

  build_tools-IsRegistered :
      (ts : List (Option Tool)) (m m' : ToolMap)
      → build_tools ms m ts ≡ ok m'
      → All (IsRegistered ms m') ts × Extends m m' × (length m' ≡ length ts + length m)
  unfolding build_tools
  build_tools-IsRegistered [] m m' h =
      let e : m ≡ m' = ok_injective h in
      (tt, subst (Extends m) e (λ n t f. f), omega (arith, ap length e))
  build_tools-IsRegistered (t ∷ ts) m m' h = elim (Result-cases (build_one ms m t)) [
    | inr (e, bad) ↦ absurd (cc (rw (bad, build_tools) at h))
    | inl (n, good) ↦
        let first = build_one-IsRegistered m n t good in
        let later = build_tools-IsRegistered ts n m' (rw (good, build_tools) at h) in
        (
          (IsRegistered-later later.1 first.0, later.0),
          Extends-trans m n m' first.1 later.1,
          omega (arith, first.2, later.2),
        )
  ]

-- Build succeeds only if every tool that was added is there, under its own name, in the middlewares,
-- with one async layer at most; and the registry holds these tools and no other.
pub build-IsRegistered :
    (b : RegistryBuilder) {r : Registry}
    → build b ≡ ok r
    → All (IsRegistered b.middlewares r.tools) b.tools × (length r.tools ≡ length b.tools)
unfolding build
build-IsRegistered b {r} h = elim (Bool-cases (policy_without_id b.opts)) [
  | inl missing ↦ absurd (cc (rw missing at h))
  | inr fine ↦ elim (Result-cases (build_tools b.middlewares [] b.tools)) [
    | inr (e, bad) ↦ absurd (cc (rw (fine, bad) at h))
    | inl (m, good) ↦
        let same : m ≡ r.tools = ap (λ x. x.tools) (ok_injective (rw (fine, good) at h)) in
        let all_there = build_tools-IsRegistered b.middlewares b.tools [] m good in
        (
          subst (λ x. All (IsRegistered b.middlewares x) b.tools) same all_there.0,
          omega (arith, ap length same, all_there.2),
        )
  ]
]
