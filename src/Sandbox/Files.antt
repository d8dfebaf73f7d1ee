-- ===== src/Sandbox/Files.antt =====
-- internal/sandboxfs/workspace.go (CanonicalizeFiles): the files of a workspace, by their clean paths.
--
-- A map of files is the list of its entries in the order in which the loop over it comes to them, which
-- is any order, so that what holds of every list holds of every order.
use toolsy.Prelude.{
  false, List, [], ◌∷◌, ◌≡◌, refl, ap, subst, ◌∙◌, inl, inr, Bool-cases, if◌then◌else◌,
}
use toolsy.Errors.{
  GoError, Piece, lit, spelled, message, wrap, Result, ok, err, ok_injective, Result-cases, ◌>>=◌,
}
use toolsy.Bytes.{Bytes, contains_bytes}
use toolsy.Sandbox.Workspace.{normalize_relative_path}

abbrev pub Files : Type 0
Files = List (Bytes × Bytes)

abbrev file_conflict : List Piece → GoError
file_conflict t = wrap (lit "workspace file conflict" ∷ []) (message t)

-- The loop over the reserved names.
unfoldable pub reserved_paths : List Bytes → Result (List Bytes)
unfolding normalize_relative_path
reserved_paths [] = ok []
reserved_paths (name ∷ names) =
    let rest = reserved_paths names in
    normalize_relative_path name >>= λ clean. rest >>= λ paths. ok (clean ∷ paths)

-- The refusal of a clean path, where it is reserved or there already.
abbrev pub accept_path : List Bytes → List Bytes → Bytes → Result Bytes
accept_path reserved seen clean =
    if contains_bytes reserved clean
    then err (file_conflict (lit "reserved path \"" ∷ spelled clean ∷ lit "\"" ∷ []))
    else if contains_bytes seen clean
    then err (
        file_conflict (lit "duplicate path \"" ∷ spelled clean ∷ lit "\" after normalization" ∷ []))
    else ok clean

-- The loop over the files; `seen` are the keys of the map that it fills.
unfoldable pub add_files : List Bytes → List Bytes → Files → Result Files
unfolding normalize_relative_path contains_bytes
add_files reserved seen [] = ok []
add_files reserved seen ((name, content) ∷ files) = normalize_relative_path name >>= λ clean.
    accept_path reserved seen clean >>= λ path.
    add_files reserved (path ∷ seen) files >>= λ rest. ok ((path, content) ∷ rest)

-- CanonicalizeFiles
unfoldable pub canonicalize_files : Files → List Bytes → Result Files
unfolding reserved_paths add_files
canonicalize_files files reserved = reserved_paths reserved >>= λ paths. add_files paths [] files

-- Each name has its clean path.
abbrev pub AreClean : List Bytes → List Bytes → Type 0
AreClean [] [] = Unit
AreClean (name ∷ names) (path ∷ paths) =
    (normalize_relative_path name ≡ ok path) × AreClean names paths
AreClean _ _ = ⊥

-- Each file has its clean path and its content.
abbrev pub AreRenamed : Files → Files → Type 0
AreRenamed [] [] = Unit
AreRenamed ((name, content) ∷ files) ((path, kept) ∷ out) =
    (normalize_relative_path name ≡ ok path) × (kept ≡ content) × AreRenamed files out
AreRenamed _ _ = ⊥

-- No path is there twice, is among those seen, or is reserved.
abbrev pub AreApart : List Bytes → List Bytes → Files → Type 0
AreApart reserved seen [] = Unit
AreApart reserved seen ((path, content) ∷ out) =
    (contains_bytes reserved path ≡ false)
    × (contains_bytes seen path ≡ false)
    × AreApart reserved (path ∷ seen) out

accept_path-apart :
    (reserved seen : List Bytes) (clean path : Bytes)
    → accept_path reserved seen clean ≡ ok path
    → (clean ≡ path) × (contains_bytes reserved clean ≡ false) × (contains_bytes seen clean ≡ false)
accept_path-apart reserved seen clean path h = elim (Bool-cases (contains_bytes reserved clean)) [
  | inl r ↦ absurd (cc (rw (accept_path, r) at h))
  | inr r ↦ elim (Bool-cases (contains_bytes seen clean)) [
    | inl s ↦ absurd (cc (rw (accept_path, r, s) at h))
    | inr s ↦ (ok_injective (rw (accept_path, r, s) at h), r, s)
  ]
]

reserved_paths-AreClean :
    (names paths : List Bytes) → reserved_paths names ≡ ok paths → AreClean names paths
unfolding reserved_paths
reserved_paths-AreClean [] paths h = subst (AreClean []) (ok_injective h) tt
reserved_paths-AreClean (name ∷ names) paths h =
    elim (Result-cases (normalize_relative_path name)) [
      | inr (e, n) ↦ absurd (cc (rw (reserved_paths, n) at h))
      | inl (path, n) ↦ elim (Result-cases (reserved_paths names)) [
        | inr (e, r) ↦ absurd (cc (rw (reserved_paths, n, r) at h))
        | inl (rest, r) ↦
            subst (AreClean (name ∷ names)) (ok_injective (rw (reserved_paths, n, r) at h))
              (n, reserved_paths-AreClean names rest r)
      ]
    ]

add_files-AreRenamed :
    (reserved seen : List Bytes) (files out : Files)
    → add_files reserved seen files ≡ ok out
    → AreRenamed files out × AreApart reserved seen out
unfolding add_files
add_files-AreRenamed reserved seen [] out h =
    subst (λ x. AreRenamed [] x × AreApart reserved seen x) (ok_injective h) (tt, tt)
add_files-AreRenamed reserved seen ((name, content) ∷ files) out h =
    elim (Result-cases (normalize_relative_path name)) [
      | inr (e, n) ↦ absurd (cc (rw (add_files, n) at h))
      | inl (clean, n) ↦ elim (Result-cases (accept_path reserved seen clean)) [
        | inr (e, a) ↦ absurd (cc (rw (add_files, n, a) at h))
        | inl (path, a) ↦ elim (Result-cases (add_files reserved (path ∷ seen) files)) [
          | inr (e, r) ↦ absurd (cc (rw (add_files, n, a, r) at h))
          | inl (rest, r) ↦
              let (same, free, new) = accept_path-apart reserved seen clean path a in
              let (renamed, apart) = add_files-AreRenamed reserved (path ∷ seen) files rest r in
              subst (λ x. AreRenamed ((name, content) ∷ files) x × AreApart reserved seen x)
                (ok_injective (rw (add_files, n, a, r) at h))
                ((n ∙ ap (λ x. ok x) same, refl, renamed), (rw same at free, rw same at new, apart))
        ]
      ]
    ]

-- The files of a workspace that are accepted are those given, in their order, each under its clean path;
-- no two have one path, and none has the clean path of a reserved name.
pub canonicalize_files-AreApart :
    (files out : Files) (reserved : List Bytes)
    → canonicalize_files files reserved ≡ ok out
    → (paths : List Bytes) × AreClean reserved paths × AreRenamed files out × AreApart paths [] out
unfolding canonicalize_files
canonicalize_files-AreApart files out reserved h = elim (Result-cases (reserved_paths reserved)) [
  | inr (e, r) ↦ absurd (cc (rw (canonicalize_files, r) at h))
  | inl (paths, r) ↦
      let (renamed, apart) =
        add_files-AreRenamed paths [] files out (rw (canonicalize_files, r) at h) in
      (paths, reserved_paths-AreClean reserved paths r, renamed, apart)
]
