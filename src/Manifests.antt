-- ===== src/Manifests.antt =====
-- manifest_set.go: sets of tool manifests, and the tools that a contract requires of one.
pub mod Contract
mod Tests
use toolsy.Prelude.{
  String, Bool, true, false, not, Option, none, some, List, [], ◌∷◌, ◌++◌, is_empty, str_eq,
  contains, if◌then◌else◌,
}
use toolsy.Errors.{
  GoError, lit, quoted, message, to_error, new_tools_contract_missing_error, Result, ok, err, ◌>>=◌,
}
use toolsy.Tool.{Tool, ToolManifest, manifest}

-- ManifestSet: an entry for each name; the nil map is the empty one.
abbrev pub ManifestSet : Type 0
ManifestSet = List (String × ToolManifest)

-- ManifestSet.Manifest
unfoldable pub manifest_of : ManifestSet → String → Option ToolManifest
manifest_of [] name = none
manifest_of ((n, m) ∷ ms) name = if str_eq n name then some m else manifest_of ms name

-- ManifestSet.Has
unfoldable pub has : ManifestSet → String → Bool
unfolding manifest_of
has ms name = elim (manifest_of ms name) [ none ↦ false | some m ↦ true ]

unfoldable pub add_manifest : ManifestSet → ToolManifest → Result ManifestSet
unfolding has
add_manifest ms m =
    if str_eq m.name ""
    then err (message (lit "toolsy: tool manifest name is required" ∷ []))
    else if has ms m.name
    then err
        (message (lit "toolsy: duplicate tool name " ∷ quoted m.name ∷ lit " in manifest set" ∷ []))
    else ok ((m.name, m) ∷ ms)

-- addToolToManifestSet; `none` is a nil tool.
unfoldable pub add_tool_to_manifest_set : ManifestSet → Option Tool → Result ManifestSet
unfolding add_manifest manifest
add_tool_to_manifest_set ms none = err (message (lit "toolsy: nil tool in manifest set" ∷ []))
add_tool_to_manifest_set ms (some t) = add_manifest ms (manifest t)

-- The loops of NewManifestSet and of ManifestSetFromManifests.
unfoldable pub add_tools : ManifestSet → List (Option Tool) → Result ManifestSet
unfolding add_tool_to_manifest_set
add_tools ms [] = ok ms
add_tools ms (t ∷ ts) = do ms' ← add_tool_to_manifest_set ms t; add_tools ms' ts

unfoldable pub add_manifests : ManifestSet → List ToolManifest → Result ManifestSet
unfolding add_manifest
add_manifests ms [] = ok ms
add_manifests ms (m ∷ rest) = do ms' ← add_manifest ms m; add_manifests ms' rest

abbrev pub new_manifest_set : List (Option Tool) → Result ManifestSet
new_manifest_set ts = add_tools [] ts

abbrev pub manifest_set_from_manifests : List ToolManifest → Result ManifestSet
manifest_set_from_manifests l = add_manifests [] l

-- The loop of ValidateManifestContract, for the names that are not in `seen`: the unique names, and the
-- missing ones.
unfoldable pub split_required : ManifestSet → List String → List String → List String × List String
unfolding has
split_required ms seen [] = ([], [])
split_required ms seen (name ∷ names) =
    let again = split_required ms seen names in
    let (unique, missing) = split_required ms (name ∷ seen) names in
    if contains seen name
    then again
    else (name ∷ unique, (if has ms name then missing else name ∷ missing))

unfoldable pub validate_manifest_contract : ManifestSet → List String → Option GoError
unfolding split_required
validate_manifest_contract ms required =
    let (unique, missing) = split_required ms [] required in
    if is_empty missing
    then none
    else some (to_error (new_tools_contract_missing_error unique missing))
