-- ===== src/Sandbox/Workspace.antt =====
-- internal/sandboxfs/workspace.go (NormalizeRelativePath): which paths name a file of the workspace.
--
-- A path is the list of its bytes, and its white space is ASCII. `path.Clean` of a relative path works on
-- the segments between the slashes; the segments that are kept so far are a stack, the last on top.
use mathlib.Core.List.{reverse}
use toolsy.Prelude.{
  ℕ, Bool, false, not, ◌&&◌, ◌||◌, List, [], ◌∷◌, ◌++◌, map, all, is_empty, leb, ◌==◌,
  if◌then◌else◌,
}
use toolsy.Errors.{GoError, Piece, lit, message, wrap, Result, ok, err}
use toolsy.Bytes.{Bytes}

abbrev pub is_space : ℕ → Bool
is_space c = c == 32 || leb 9 c && leb c 13

-- strings.ReplaceAll(name, "\\", "/")
abbrev pub to_slashes : Bytes → Bytes
to_slashes name = map (λ c. if c == 92 then 47 else c) name

abbrev starts_with_slash : Bytes → Bool
starts_with_slash [] = false
starts_with_slash (c ∷ cs) = c == 47

-- hasWindowsDrivePrefix
abbrev pub has_windows_drive_prefix : Bytes → Bool
has_windows_drive_prefix [] = false
has_windows_drive_prefix (c ∷ []) = false
has_windows_drive_prefix (c ∷ (d ∷ cs)) = d == 58 && (leb 65 c && leb c 90 || leb 97 c && leb c 122)

abbrev add_byte : ℕ → List Bytes → List Bytes
add_byte c [] = (c ∷ []) ∷ []
add_byte c (s ∷ ss) = (c ∷ s) ∷ ss

-- The segments between the slashes.
unfoldable pub split_slashes : Bytes → List Bytes
split_slashes [] = [] ∷ []
split_slashes (c ∷ cs) =
    let rest = split_slashes cs in if c == 47 then [] ∷ rest else add_byte c rest

abbrev pub is_dot : Bytes → Bool
is_dot [] = false
is_dot (c ∷ []) = c == 46
is_dot (c ∷ (d ∷ cs)) = false

abbrev pub is_dot_dot : Bytes → Bool
is_dot_dot [] = false
is_dot_dot (c ∷ []) = false
is_dot_dot (c ∷ (d ∷ [])) = c == 46 && d == 46
is_dot_dot (c ∷ (d ∷ (e ∷ cs))) = false

-- A `..` takes the last segment off, unless there is none or it is a `..` itself.
abbrev pub go_up : Bytes → List Bytes → List Bytes
go_up up [] = up ∷ []
go_up up (s ∷ ss) = if is_dot_dot s then up ∷ (s ∷ ss) else ss

unfoldable pub push_segment : List Bytes → Bytes → List Bytes
push_segment stack s =
    if is_empty s || is_dot s then stack else if is_dot_dot s then go_up s stack else s ∷ stack

unfoldable pub clean_segments : List Bytes → List Bytes → List Bytes
unfolding push_segment
clean_segments stack [] = stack
clean_segments stack (s ∷ ss) = clean_segments (push_segment stack s) ss

abbrev pub join_slashes : List Bytes → Bytes
join_slashes [] = []
join_slashes (s ∷ []) = s
join_slashes (s ∷ (t ∷ ss)) = s ++ 47 ∷ join_slashes (t ∷ ss)

-- `clean == ".." || strings.HasPrefix(clean, "../")`, by the first segment.
unfoldable pub starts_up : List Bytes → Bool
starts_up [] = false
starts_up (s ∷ []) = is_dot_dot s
starts_up (s ∷ (t ∷ ss)) = starts_up (t ∷ ss)

abbrev invalid_path : List Piece → GoError
invalid_path t = wrap (lit "invalid workspace path" ∷ []) (message t)

-- NormalizeRelativePath; a clean path without segments is `.`.
unfoldable pub normalize_relative_path : Bytes → Result Bytes
unfolding split_slashes clean_segments starts_up
normalize_relative_path name =
    let normalized = to_slashes name in
    let clean = clean_segments [] (split_slashes normalized) in
    if all is_space name
    then err (invalid_path (lit "path is empty" ∷ []))
    else if not (all (λ c. not (c == 0)) name)
    then err (invalid_path (lit "path contains NUL byte" ∷ []))
    else if starts_with_slash normalized || has_windows_drive_prefix normalized
    then err (invalid_path (lit "absolute paths are not allowed" ∷ []))
    else if is_empty clean || starts_up clean
    then err (invalid_path (lit "path must stay inside workspace" ∷ []))
    else ok (join_slashes (reverse clean))
