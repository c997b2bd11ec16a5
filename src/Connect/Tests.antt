-- ===== src/Connect/Tests.antt =====
-- The form as it opens, and a saved profile.
use mathlib.Core.Option
use pfnc.Prelude.{◌≡◌, refl, false, none, some, [], ◌∷◌, codes, Str, arith}
use pfnc.Keys.{char}
use pfnc.Connect.{
  ConnectForm, ConnectField, SavedProfileSummary, FormStep, handle_connect_key, apply_saved, submit,
  connects, submission, profile_id, show_port, trim,
}
use pfnc.Connect.Form.{four, HasRoom, LeavesWhole, handle_connect_key-IsWhole, submit-apply_saved}

abbrev field : Str → ConnectField
field s = record { label = s; text = record { value = []; cursor = 0 }; secret = false }

abbrev home_server : SavedProfileSummary
home_server = record {
  id = codes "me@nas:2222";
  host = codes "nas";
  port = 2222;
  username = codes "me";
}

abbrev fresh : ConnectForm
fresh = four (field []) (field []) (field []) (field []) 3 none (home_server ∷ [])

field-HasRoom : HasRoom (field [])
field-HasRoom = (record { in_text = omega arith; held = omega arith }, omega arith)

id_of_saved : profile_id (codes "me") (codes "nas") 2222 ≡ codes "me@nas:2222"
unfolding profile_id show_port
id_of_saved = refl

trims : trim (codes "  nas ") ≡ codes "nas"
trims = refl

handle_connect_key-IsWhole_example :
    (step : FormStep) × (handle_connect_key (char 233) fresh ≡ some step) × LeavesWhole step
handle_connect_key-IsWhole_example =
    handle_connect_key-IsWhole (field []) (field []) (field []) (field []) none (home_server ∷ [])
      field-HasRoom field-HasRoom field-HasRoom field-HasRoom (char 233) 3 (omega arith)

submit-apply_saved_example :
    Option.bind (apply_saved home_server fresh) submit
    ≡ some (connects (submission (codes "nas") 2222 (codes "me") []))
submit-apply_saved_example =
    submit-apply_saved (field []) (field []) (field []) (field []) 3 none (home_server ∷ [])
      home_server refl refl refl (omega arith)
