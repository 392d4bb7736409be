-- ===== src/Ipc/Compatibility.antt =====
-- `validate_status` of crates/wireview-ipc/src/lib.rs. The fingerprint of the interface is computed
-- by SHA-256 from a file of the repository: a parameter.
use wireview_pro_ii.Base.{ℕ, String, Bool, not, ◌&&◌, List, [], ◌∷◌, any, ◌==◌, if◌then◌else◌}
use wireview_pro_ii.Base.Sort.{same_text}
use wireview_pro_ii.Base.Text.{join}
use wireview_pro_ii.Ipc.Messages.{StatusDto}

abbrev pub api_version : ℕ
api_version = 2

abbrev pub api_capabilities : List String
api_capabilities =
    "configuration-items" ∷ "device-control" ∷ "device-info" ∷ "display-leases" ∷ "fault-registers"
    ∷ "history-dump" ∷ "telemetry" ∷ "theme-assets-read" ∷ "theme-assets-write" ∷ []

abbrev pub compatible_schema_ids : List String
compatible_schema_ids = "wireview-2-047f86fdb168c045" ∷ []

pub data Compatibility : Type 0 where
  compatible : Compatibility
  wrong_version : ℕ → ℕ → Compatibility
  wrong_schema : String → String → Compatibility
  missing_capabilities : String → Compatibility

abbrev pub contains_text : List String → String → Bool
contains_text texts text = any (λ other. same_text other text) texts

-- The required texts that are not available.
abbrev pub missing_from : List String → List String → List String
missing_from available [] = []
missing_from available (required ∷ others) =
    let rest = missing_from available others in
    if contains_text available required then rest else required ∷ rest

abbrev pub missing_or_compatible : List String → Compatibility
missing_or_compatible [] = compatible
missing_or_compatible (m ∷ ms) = missing_capabilities (join ", " (m ∷ ms))

-- `Ok` is `compatible`.
unfoldable pub validate_status : String → StatusDto → Compatibility
validate_status required_schema status =
    if not (status.api_version == api_version)
    then wrong_version status.api_version api_version
    else if not (same_text status.api_compatibility_id required_schema)
        && not (contains_text compatible_schema_ids status.api_compatibility_id)
    then wrong_schema
        (if same_text status.api_compatibility_id ""
          then "not reported"
          else status.api_compatibility_id)
        required_schema
    else let missing = missing_from status.api_capabilities api_capabilities in
      missing_or_compatible missing
