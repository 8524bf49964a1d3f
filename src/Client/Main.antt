-- ===== src/Client/Main.antt =====
-- main.go: how the program ends, its flag for verbose logging, and the command `version`. cobra and
-- runtime/debug are parameters: which command runs, what it returns, and what the build recorded.
use perseus.Prelude.{
  ℕ, Text, codes, Bool, Option, none, some, List, [], ◌∷◌, ◌++◌, if◌then◌else◌, text_eq,
}

-- The value of --debug, or else whether LOG_VERBOSITY asks for it.
unfoldable pub debug_mode : Option Bool → Text → Bool
debug_mode none verbosity = text_eq verbosity (codes "debug")
debug_mode (some flag) verbosity = flag

-- What the program writes on standard error, and its exit code.
pub record Ending : Type 0 where
  pub errors : Text
  pub exit_code : ℕ

-- main, for the error of rootCommand.Execute
unfoldable pub ending : Option Text → Ending
ending none = record { errors = []; exit_code = 0 }
ending (some e) = record { errors = e ++ codes "\n"; exit_code = 1 }

-- The variables that runVersionCmd sets.
pub record VersionInfo : Type 0 where
  pub commit_date : Text
  pub commit_hash : Text
  pub goos : Text
  pub goarch : Text

-- The switch on the key of a setting
unfoldable pub read_setting : VersionInfo → Text × Text → VersionInfo
read_setting v (key, value) =
    if text_eq key (codes "vcs.time")
    then record v { commit_date = value }
    else if text_eq key (codes "vcs.revision")
    then record v { commit_hash = value }
    else if text_eq key (codes "GOOS")
    then record v { goos = value }
    else if text_eq key (codes "GOARCH")
    then record v { goarch = value }
    else v

unfoldable pub read_settings : VersionInfo → List (Text × Text) → VersionInfo
unfolding read_setting
read_settings v [] = v
read_settings v (s ∷ settings) = read_settings (read_setting v s) settings

-- What debug.ReadBuildInfo returns.
pub record BuildInfo : Type 0 where
  pub go_version : Text
  pub settings : List (Text × Text)

-- versionInfoTemplate
unfoldable pub version_text : Text → Text → Text → VersionInfo → Text
version_text build_version build_date go_version v =
    codes "perseus - Defeating krakens since 2022\n\t"
    ++ build_version
    ++ codes " (built "
    ++ build_date
    ++ codes ", "
    ++ go_version
    ++ codes " "
    ++ v.goos
    ++ codes "/"
    ++ v.goarch
    ++ codes ")\n\tcommit: "
    ++ v.commit_hash
    ++ codes " (date: "
    ++ v.commit_date
    ++ codes ")\n"

-- runVersionCmd, with the variables as they stand before it
unfoldable pub run_version : Text → Text → VersionInfo → BuildInfo → Text
unfolding version_text read_settings
run_version build_version build_date v info =
    version_text build_version build_date info.go_version (read_settings v info.settings)
