-- ===== src/Settings.antt =====
-- src/web/admin.rs: the settings that the administrator submits, and the portal's configuration with
-- them. The form's fields are trimmed; a moment is `now`, in nanoseconds.
pub mod Fields
pub mod RoundTrip
use didicafe.Base.{
  ℕ, ◌≡◌, refl, not, ◌&&◌, none, some, List, [], ◌∷◌, ◌++◌, ltb, if◌then◌else◌, ◌==◌, Str, lit,
  str_eq, byte_len, is_empty, Result, ok, err,
}
use didicafe.Base.Results as Results
use didicafe.Base.Results.{ensure}
use didicafe.Config.{Config, PortalConfig, is_valid_hex_color}
use didicafe.Db.Tables.{Database}
use didicafe.Db.Plans.{set_setting}
use didicafe.Db.Audit.{audit_log}
use didicafe.Firewall.{Firewall}
use didicafe.Portal.{trim}
use didicafe.World.{World, query, update, query_quiet}
use didicafe.World as World
use didicafe.Web.{AppError, bad_request}
use didicafe.Web.Handler.{Handler, pure, ◌>>=◌, ◌>>◌, internally, discard, lift}

pub record SettingsForm : Type 0 where
  pub cafe_name : Str
  pub welcome_message : Str
  pub theme_color : Str
  pub contact_name : Str
  pub contact_phone : Str
  pub contact_hours : Str
  pub csrf_token : Str

-- The rows come in the order of their keys in the source; no key stands twice, and each key has a
-- field of its own.
unfoldable pub get_all_settings : Database → List (Str × Str)
get_all_settings db = db.settings

-- One round of the `for` loop.
unfoldable pub apply_setting : PortalConfig → Str × Str → PortalConfig
apply_setting cfg (key, value) =
    if (key == lit "cafe_name") && not (is_empty value)
    then record cfg { cafe_name = value }
    else if key == lit "welcome_message"
    then record cfg { welcome_message = value }
    else if (key == lit "theme_color") && is_valid_hex_color value
    then record cfg { theme_color = value }
    else if key == lit "contact_name"
    then record cfg { contact_name = value }
    else if key == lit "contact_phone"
    then record cfg { contact_phone = value }
    else if key == lit "contact_hours"
    then record cfg { contact_hours = value }
    else cfg

unfoldable pub apply_settings : PortalConfig → List (Str × Str) → PortalConfig
apply_settings cfg [] = cfg
apply_settings cfg (s ∷ settings) = apply_settings (apply_setting cfg s) settings

-- `.unwrap_or_default()`
abbrev pub or_default : {E : Type 0} → Result E (List (Str × Str)) → List (Str × Str)
or_default (ok settings) = settings
or_default (err e) = []

-- The trimmed fields.
abbrev pub trimmed : SettingsForm → SettingsForm
trimmed form = record {
  cafe_name = trim form.cafe_name;
  welcome_message = trim form.welcome_message;
  theme_color = trim form.theme_color;
  contact_name = trim form.contact_name;
  contact_phone = trim form.contact_phone;
  contact_hours = trim form.contact_hours;
  csrf_token = form.csrf_token;
}

-- The checks on the trimmed fields.
unfoldable pub validate_settings : SettingsForm → Result AppError (Unit {0})
validate_settings form =
    Results.◌>>◌
      (ensure (not (is_empty form.cafe_name)) (bad_request (lit "admin.error.name_empty")))
      (Results.◌>>◌
        (ensure (not (ltb 100 (byte_len form.cafe_name)))
          (bad_request (lit "admin.error.name_too_long")))
        (Results.◌>>◌
          (ensure (not (ltb 500 (byte_len form.welcome_message)))
            (bad_request (lit "admin.error.welcome_too_long")))
          (Results.◌>>◌
            (ensure (is_valid_hex_color form.theme_color)
              (bad_request (lit "admin.error.invalid_color")))
            (Results.◌>>◌
              (ensure (not (ltb 100 (byte_len form.contact_name)))
                (bad_request (lit "admin.error.name_too_long")))
              (Results.◌>>◌
                (ensure (not (ltb 30 (byte_len form.contact_phone)))
                  (bad_request (lit "admin.error.phone_too_long")))
                (ensure (not (ltb 100 (byte_len form.contact_hours)))
                  (bad_request (lit "admin.error.hours_too_long"))))))))

module _ (fw : Firewall) (config : Config) where
  -- A failure of the query leaves the configuration of the file.
  unfoldable pub portal_config_from_db : World fw → PortalConfig × World fw
  portal_config_from_db w =
      let (settings, w') = query get_all_settings w in
      (apply_settings config.portal (or_default settings), w')

  -- One statement of the submission.
  abbrev pub store : Str → Str → Handler fw (Unit {0})
  store key value = internally (update (λ db. set_setting db key value))

  -- The configuration that the page shows again.
  abbrev pub reread : Handler fw PortalConfig
  reread w = let (cfg, w') = portal_config_from_db w in (ok cfg, w')

  -- `csrf` is the token of the session.
  unfoldable pub settings_submit : Str → SettingsForm → ℕ → Handler fw PortalConfig
  settings_submit csrf form now = do
    lift (ensure (form.csrf_token == csrf) (bad_request (lit "admin.error.csrf")))
    lift (validate_settings (trimmed form))
    store (lit "cafe_name") (trim form.cafe_name)
    store (lit "welcome_message") (trim form.welcome_message)
    store (lit "theme_color") (trim form.theme_color)
    store (lit "contact_name") (trim form.contact_name)
    store (lit "contact_phone") (trim form.contact_phone)
    store (lit "contact_hours") (trim form.contact_hours)
    discard (
        update (λ db.
          audit_log db config.admin.username (lit "update_settings") (some (lit "setting")) none
            (some (
              lit "cafe_name="
              ++ (trim form.cafe_name ++ (lit ", theme_color=" ++ trim form.theme_color))))
            now))
    reread

  -- Where no statement fails, the stored settings stand over those of the file.
  pub portal_config_quiet :
      (w : World fw)
      → w.io ≡ []
      → portal_config_from_db w ≡ (apply_settings config.portal w.db.settings, w)
  unfolding portal_config_from_db get_all_settings
  portal_config_quiet w quiet = rw (query_quiet get_all_settings w quiet) refl
