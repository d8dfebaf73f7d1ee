-- ===== src/Exec/Served.antt =====
-- exectool/tool.go: which requests reach a sandbox, and what becomes of its answer.
use toolsy.Prelude.{
  ℕ, String, true, false, ◌||◌, Option, some, List, [], ◌∷◌, map, ◌≡◌, refl, sym, ap, subst, ◌∙◌,
  ◌⊎◌, inl, inr, is_empty, Bool-cases, Option-cases, arith,
}
use toolsy.Errors.{GoError, Result, ok, err, ok_injective, Result-cases}
use toolsy.Bytes.{Bytes, same_bytes, same_bytes→eq, contains_bytes, trim_space}
use toolsy.Chunk.{Chunk, empty_chunk, result, raw, mime_json}
use toolsy.Exec.{
  insert_sorted, sort_strings, trimmed_languages, normalize_languages, intersect_languages,
  resolve_supported_languages, Decoded, decoded_string, RunRequest, exec_request, map_exec_error,
  emit, after_sandbox, run_code,
}

insert_sorted-contains :
    (s : Bytes) (ts : List Bytes) (w : Bytes)
    → contains_bytes (insert_sorted s ts) w ≡ contains_bytes (s ∷ ts) w
unfolding contains_bytes
insert_sorted-contains s [] w = refl
insert_sorted-contains s (t ∷ ts) w = ground (arith, insert_sorted-contains s ts w)

sort_strings-contains :
    (ss : List Bytes) (w : Bytes) → contains_bytes (sort_strings ss) w ≡ contains_bytes ss w
unfolding contains_bytes
sort_strings-contains [] w = refl
sort_strings-contains (s ∷ ss) w =
    insert_sorted-contains s (sort_strings ss) w
    ∙ ap (λ b. same_bytes s w || b) (sort_strings-contains ss w)

-- A name is one of the languages, up to the white space around them.
abbrev pub IsAmong : List Bytes → Bytes → Type 0
IsAmong languages name = contains_bytes (map trim_space languages) name ≡ true

trimmed_languages-IsAmong :
    (seen languages out : List Bytes) (name : Bytes)
    → trimmed_languages seen languages ≡ ok out
    → contains_bytes out name ≡ true
    → IsAmong languages name
unfolding trimmed_languages contains_bytes
trimmed_languages-IsAmong seen [] out name h k =
    let nothing = ap (λ x. contains_bytes x name) (ok_injective h) ∙ k in absurd (cc)
trimmed_languages-IsAmong seen (l ∷ languages) out name h k =
    elim (Bool-cases (is_empty (trim_space l))) [
      | inl e ↦ absurd (cc (rw (trimmed_languages, e) at h))
      | inr e ↦ elim (Bool-cases (contains_bytes seen (trim_space l))) [
        | inl again ↦
            let later =
              trimmed_languages-IsAmong seen languages out name
                (rw (trimmed_languages, e, again) at h) k in
            ground (arith, later)
        | inr new ↦ elim (Result-cases (trimmed_languages (trim_space l ∷ seen) languages)) [
          | inr (f, r) ↦ absurd (cc (rw (trimmed_languages, e, new, r) at h))
          | inl (rest, r) ↦
              let same = ok_injective (rw (trimmed_languages, e, new, r) at h) in
              let found : contains_bytes (trim_space l ∷ rest) name ≡ true =
                ap (λ x. contains_bytes x name) same ∙ k in
              elim (Bool-cases (contains_bytes rest name)) [
                | inl later ↦
                    let among =
                      trimmed_languages-IsAmong (trim_space l ∷ seen) languages rest name r later in
                    ground (arith, among)
                | inr here ↦ ground (arith, found, here)
              ]
        ]
      ]
    ]

normalize_languages-IsAmong :
    (languages out : List Bytes) (name : Bytes)
    → normalize_languages languages ≡ ok out
    → contains_bytes out name ≡ true
    → IsAmong languages name
unfolding normalize_languages
normalize_languages-IsAmong languages out name h k =
    elim (Result-cases (trimmed_languages [] languages)) [
      | inr (e, r) ↦ absurd (cc (rw (normalize_languages, r) at h))
      | inl (ts, r) ↦ elim (Bool-cases (is_empty ts)) [
        | inl n ↦ absurd (cc (rw (normalize_languages, r, n) at h))
        | inr n ↦
            let same = ok_injective (rw (normalize_languages, r, n) at h) in
            trimmed_languages-IsAmong [] languages ts name r
              (sym (sort_strings-contains ts name) ∙ ap (λ x. contains_bytes x name) same ∙ k)
      ]
    ]

intersect_languages-both :
    (supported allowed : List Bytes) (name : Bytes)
    → contains_bytes (intersect_languages supported allowed) name ≡ true
    → (contains_bytes supported name ≡ true) × (contains_bytes allowed name ≡ true)
unfolding intersect_languages contains_bytes
intersect_languages-both [] allowed name h = absurd (cc)
intersect_languages-both (l ∷ supported) allowed name h =
    elim (Bool-cases (contains_bytes allowed l)) [
      | inr out ↦
          let (a, b) =
            intersect_languages-both supported allowed name (rw (intersect_languages, out) at h) in
          (ground (arith, a), b)
      | inl kept ↦ elim (Bool-cases (same_bytes l name)) [
        | inl same ↦ (
          rw same refl,
          subst (λ x. contains_bytes allowed x ≡ true) (same_bytes→eq l name same) kept,
        )
        | inr other ↦
            let (a, b) =
              intersect_languages-both supported allowed name (ground (arith, h, kept, other)) in
            (ground (arith, a), b)
      ]
    ]

-- A language that the sandbox has and that the options allow, if they allow some.
abbrev pub IsResolved : List Bytes → List Bytes → Bytes → Type 0
IsResolved sandbox_languages [] name = IsAmong sandbox_languages name
IsResolved sandbox_languages (l ∷ allowed) name =
    IsAmong sandbox_languages name × IsAmong (l ∷ allowed) name

resolve_supported_languages-IsResolved :
    (sandbox_languages allowed_languages supported : List Bytes) (name : Bytes)
    → resolve_supported_languages sandbox_languages allowed_languages ≡ ok supported
    → contains_bytes supported name ≡ true
    → IsResolved sandbox_languages allowed_languages name
unfolding resolve_supported_languages
resolve_supported_languages-IsResolved sandbox_languages [] supported name h k =
    elim (Result-cases (normalize_languages sandbox_languages)) [
      | inr (e, n) ↦ absurd (cc (rw (resolve_supported_languages, n) at h))
      | inl (own, n) ↦
          let same = ok_injective (rw (resolve_supported_languages, n) at h) in
          normalize_languages-IsAmong sandbox_languages own name n
            (ap (λ x. contains_bytes x name) same ∙ k)
    ]
resolve_supported_languages-IsResolved sandbox_languages (l ∷ allowed) supported name h k =
    elim (Result-cases (normalize_languages sandbox_languages)) [
      | inr (e, n) ↦ absurd (cc (rw (resolve_supported_languages, n) at h))
      | inl (own, n) ↦ elim (Result-cases (normalize_languages (l ∷ allowed))) [
        | inr (e, m) ↦ absurd (cc (rw (resolve_supported_languages, n, m) at h))
        | inl (let_in, m) ↦ elim (Bool-cases (is_empty (intersect_languages own let_in))) [
          | inl none_left ↦ absurd (cc (rw (resolve_supported_languages, n, m, none_left) at h))
          | inr left ↦
              let same = ok_injective (rw (resolve_supported_languages, n, m, left) at h) in
              let (a, b) =
                intersect_languages-both own let_in name
                  (ap (λ x. contains_bytes x name) same ∙ k) in
              (
                normalize_languages-IsAmong sandbox_languages own name n a,
                normalize_languages-IsAmong (l ∷ allowed) let_in name m b,
              )
        ]
      ]
    ]

-- A request made of the arguments: their code, which is not blank, and a language that is supported.
abbrev pub IsRunnable : (Bytes → Type 0) → Decoded → RunRequest → Type 0
IsRunnable IsOffered m req =
    IsOffered req.language
    × (decoded_string m "code" ≡ some req.code)
    × (is_empty (trim_space req.code) ≡ false)
    × ((language : Bytes) × (decoded_string m "language" ≡ some language)
        × (req.language ≡ trim_space language))

exec_request-IsRunnable :
    (supported : List Bytes) (m : Decoded) (req : RunRequest)
    → exec_request supported m ≡ ok req
    → IsRunnable (λ name. contains_bytes supported name ≡ true) m req
unfolding exec_request
exec_request-IsRunnable supported m req h = elim (Option-cases (decoded_string m "language")) [
  | inl no_language ↦ absurd (cc (rw (exec_request, no_language) at h))
  | inr (language, l) ↦ elim (Option-cases (decoded_string m "code")) [
    | inl no_code ↦ absurd (cc (rw (exec_request, l, no_code) at h))
    | inr (code, c) ↦ elim (Bool-cases (is_empty (trim_space code))) [
      | inl blank ↦ absurd (cc (rw (exec_request, l, c, blank) at h))
      | inr written ↦ elim (Bool-cases (contains_bytes supported (trim_space language))) [
        | inr unknown ↦ absurd (cc (rw (exec_request, l, c, written, unknown) at h))
        | inl known ↦
            subst (IsRunnable (λ name. contains_bytes supported name ≡ true) m)
              (ok_injective (rw (exec_request, l, c, written, known) at h))
              (known, c, written, (language, l, refl))
      ]
    ]
  ]
]

module _ {S C R : Type 0} (limit : GoError → String × ℕ) (sandbox : S → RunRequest → S × Result R)
    (marshal : R → Result Bytes) (yield : C → Chunk → C × Option GoError) where
  -- What the consumer is handed of a sandbox's answer: nothing of an error or of a result that has no
  -- encoding, or the encoded result, once.
  abbrev pub IsEmitted : C → Result R → C × Option GoError → Type 0
  IsEmitted c (err e) p = (p.0 ≡ c) × (p.1 ≡ some (map_exec_error limit e))
  IsEmitted c (ok res) p =
      ((f : GoError) × (marshal res ≡ err f) × (p.0 ≡ c) × ((e : GoError) × (p.1 ≡ some e)))
      ⊎ ((out : Bytes) × (marshal res ≡ ok out)
          × (p
              ≡ yield c (record empty_chunk {
                event = result;
                payload = raw out;
                mime_type = mime_json;
              })))

  -- A refusal that neither the sandbox nor the consumer sees, or one run and its answer.
  abbrev pub IsServed : (Bytes → Type 0) → Decoded → S → C → (S × C) × Option GoError → Type 0
  IsServed IsOffered m s c p =
      ((p.0 ≡ (s, c)) × ((e : GoError) × (p.1 ≡ some e)))
      ⊎ ((req : RunRequest) × IsRunnable IsOffered m req
          × (p.0.0 ≡ (sandbox s req).0)
          × IsEmitted c (sandbox s req).1 (p.0.1, p.1))

  emit-IsEmitted :
      (supported : List Bytes) (c : C) (res : R)
      → IsEmitted c (ok res) (emit supported limit sandbox marshal yield c res)
  emit-IsEmitted supported c res = elim (Result-cases (marshal res)) [
    | inr (e, m) ↦ rw (emit, m) (inl (e, refl, refl, (_, refl)))
    | inl (out, m) ↦ inr (out, m, rw (emit, m) refl)
  ]

  after_sandbox-IsEmitted :
      (supported : List Bytes) (c : C) (p : S × Result R)
      → let q = after_sandbox supported limit sandbox marshal yield c p in
        (q.0.0 ≡ p.0) × IsEmitted c p.1 (q.0.1, q.1)
  after_sandbox-IsEmitted supported c (s, err e) = (refl, (refl, refl))
  after_sandbox-IsEmitted supported c (s, ok res) = (refl, emit-IsEmitted supported c res)

  -- A call of the tool either fails before the sandbox and the consumer see anything, or runs the sandbox
  -- once: with the code of the arguments, which is not blank, and their language without the white space
  -- around it, which is one of the sandbox's and, where the options allow some languages only, one of
  -- those. The error of the sandbox comes back mapped; a result is handed on once, encoded, and what the
  -- consumer says of it is returned; without an encoding it is an error.
  pub run_code-IsServed :
      (sandbox_languages allowed_languages supported : List Bytes) (m : Decoded) (s : S) (c : C)
      → resolve_supported_languages sandbox_languages allowed_languages ≡ ok supported
      → IsServed
          (IsResolved sandbox_languages allowed_languages)
          m
          s
          c
          (run_code supported limit sandbox marshal yield m s c)
  unfolding run_code
  run_code-IsServed sandbox_languages allowed_languages supported m s c h =
      elim (Result-cases (exec_request supported m)) [
        | inr (e, r) ↦ rw (run_code, r) (inl (refl, (e, refl)))
        | inl (req, r) ↦
            let (known, code, written, language) = exec_request-IsRunnable supported m req r in
            let (state, emitted) = after_sandbox-IsEmitted supported c (sandbox s req) in
            rw (run_code, r)
              (inr (
                req,
                (
                  resolve_supported_languages-IsResolved sandbox_languages allowed_languages
                      supported req.language h known,
                  code,
                  written,
                  language,
                ),
                state,
                emitted,
              ))
      ]
