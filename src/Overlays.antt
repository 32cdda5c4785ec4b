-- ===== src/Overlays.antt =====
-- OverlayLoader.cpp: which overlays are loaded, in which order, and how they are applied. The file
-- system is a parameter: the entries of the directory, with what the parser makes of each file.
pub mod Stopping
use Prim.Native.String
use text.Mathlib.Text.{is_lt}
use kuksa_val.Channel.{KuksaChannel, websocket_plain}
use kuksa_val.Database.Metadata.{update_json_tree}
use kuksa_val.Database.Nodes.{Database}
use kuksa_val.Exception.{Exception, std_error, what, Result, ok, err}
use kuksa_val.External.{Jsoncons}
use kuksa_val.Json.{Json, empty}
use kuksa_val.Prelude.{String, ◌<>◌, Bool, true, false, ◌&&◌, List, [], ◌∷◌, if◌then◌else◌, str_eq}

-- An entry of the directory, with the result of json::parse for its text.
pub record OverlayFile : Type 0 where
  pub generic_string : String
  pub filename : String
  pub extension : String
  pub is_regular_file : Bool
  pub content : Result Json

pub record OverlayDirectory : Type 0 where
  pub generic_string : String
  pub is_directory : Bool
  pub entries : List OverlayFile

unfoldable pub overlay_files : List OverlayFile → List OverlayFile
overlay_files [] = []
overlay_files (p ∷ entries) =
    let rest = overlay_files entries in
    if p.is_regular_file && str_eq p.extension ".json" then p ∷ rest else rest

-- std::sort by the name; the names in a directory differ, so that all sorts agree.
unfoldable pub insert_by_name : OverlayFile → List OverlayFile → List OverlayFile
insert_by_name p [] = p ∷ []
insert_by_name p (q ∷ files) =
    let rest = insert_by_name p files in
    if is_lt (String.compare q.filename p.filename) then q ∷ rest else p ∷ q ∷ files

unfoldable pub sort_by_name : List OverlayFile → List OverlayFile
unfolding insert_by_name
sort_by_name [] = []
sort_by_name (p ∷ files) = insert_by_name p (sort_by_name files)

unfoldable pub gather_overlays : OverlayDirectory → Result (List OverlayFile)
unfolding overlay_files sort_by_name
gather_overlays d =
    if d.is_directory
    then ok (sort_by_name (overlay_files d.entries))
    else err (std_error ("Overlays need to be a directory. \"" <> d.generic_string <> "\" is not."))

-- A channel that may change the tree.
abbrev pub mock_channel : KuksaChannel
mock_channel = record {
  connection_id = 0;
  authorized = false;
  modify_tree = true;
  auth_token = "";
  permissions = empty;
  type_of_connection = websocket_plain;
}

-- The exception that applyOverlays makes of any other.
unfoldable pub error_loading : OverlayFile → Exception → Exception
unfolding what
error_loading p e = std_error ("Error loading \"" <> p.generic_string <> "\": " <> what e)

module _ ⦃J : Jsoncons⦄ where
  abbrev pub overlay_update : Database → Result Json → Result (Unit {0}) × Database
  overlay_update db (err e) = (err e, db)
  overlay_update db (ok overlay) = update_json_tree mock_channel overlay db

  abbrev pub overlay_next :
      OverlayFile
      → (Database → Result (Unit {0}) × Database)
      → Result (Unit {0}) × Database
      → Result (Unit {0}) × Database
  overlay_next p next (err e, db) = (err (error_loading p e), db)
  overlay_next p next (ok tt, db) = next db

  unfoldable pub apply_overlays : List OverlayFile → Database → Result (Unit {0}) × Database
  unfolding update_json_tree error_loading
  apply_overlays [] db = (ok tt, db)
  apply_overlays (p ∷ files) db =
      overlay_next p (apply_overlays files) (overlay_update db p.content)
