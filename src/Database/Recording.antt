-- ===== src/Database/Recording.antt =====
-- VssDatabase_Record.cpp: the database that writes a line for each access before it passes it on.
-- The log file is the list of its lines.
use kuksa_val.Database.Nodes.{Database}
use kuksa_val.Database.Signals.{Server, set_signal, get_signal}
use kuksa_val.Exception.{Result}
use kuksa_val.External.{BoostText, Jsoncons, Clock}
use kuksa_val.Json.{Json}
use kuksa_val.Numbers.{Floats}
use kuksa_val.Path.{VssPath, to_string}
use kuksa_val.Prelude.{String, ◌<>◌, Bool, false, List, [], ◌∷◌, ◌++◌, if◌then◌else◌, str_eq}
use kuksa_val.Sanitizer.Numeric.{Streams}

-- logMode_, and the lines of the log.
pub record Recorder : Type 0 where
  pub log_mode : String
  pub lines : List String

abbrev pub log_line : String → Recorder → Recorder
log_line text r = record r { lines = r.lines ++ text ∷ [] }

module _ ⦃J : Jsoncons⦄ where
  unfoldable pub set_line : VssPath → String → Json → String
  set_line path attr value = "set;" <> attr <> ";" <> to_string path <> ";" <> J.dump_pretty value

  unfoldable pub get_line : VssPath → String → String
  get_line path attr = "get;" <> attr <> ";" <> to_string path

  module _ ⦃B : BoostText⦄ ⦃S : Streams⦄ ⦃F : Floats⦄ ⦃C : Clock⦄ where
    unfoldable pub record_set_signal :
        VssPath → String → Json → Recorder × Server → Result Json × (Recorder × Server)
    unfolding set_line set_signal
    record_set_signal path attr value (r, s) =
        let outcome = set_signal path attr value s in
        (outcome.0, (log_line (set_line path attr value) r, outcome.1))

  module _ ⦃C : Clock⦄ where
    -- The argument as_string is not passed on.
    unfoldable pub record_get_signal :
        Database → VssPath → String → Bool → Recorder → Result Json × Recorder
    unfolding get_line get_signal
    record_get_signal db path attr as_string r = (
      get_signal db path attr false,
      if str_eq r.log_mode "recordSetAndGet" then log_line (get_line path attr) r else r,
    )
