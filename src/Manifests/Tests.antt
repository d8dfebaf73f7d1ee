-- ===== src/Manifests/Tests.antt =====
-- The theorems about contracts at a set of one manifest.
use toolsy.Prelude.{String, List, [], ◌∷◌}
use toolsy.Manifests.{ManifestSet, validate_manifest_contract}
use toolsy.Manifests.Contract.{IsVerdict, validate_manifest_contract-IsVerdict}
use toolsy.Samples.{echo_manifest}

abbrev one_tool : ManifestSet
one_tool = ("echo", echo_manifest) ∷ []

abbrev required : List String
required = "echo" ∷ "grep" ∷ "echo" ∷ []

validate_manifest_contract-IsVerdict_example :
    IsVerdict one_tool required (validate_manifest_contract one_tool required)
validate_manifest_contract-IsVerdict_example =
    validate_manifest_contract-IsVerdict one_tool required
