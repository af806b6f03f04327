-- ===== src/Target/Directory.antt =====
-- teleport/src/target.rs, the directory of the .ibt files. A path is the list of its parts.
use iracing_teleport.Base.{ℕ, List, [], ◌∷◌, Option, none, some, codes}

-- The argument is the value of USERPROFILE.
unfoldable pub ibt_telemetry_dir : Option (List ℕ) → List (List ℕ)
ibt_telemetry_dir none = codes "telemetry" ∷ []
ibt_telemetry_dir (some profile) =
    profile ∷ codes "Documents" ∷ codes "iRacing" ∷ codes "telemetry" ∷ []
