-- ===== src/Settings/RoundTrip.antt =====
-- src/web/admin.rs: what is read back after a submission.
use didicafe.Base.{
  ℕ, ◌≡◌, refl, ap, ◌∙◌, Bool, true, false, not, Option, none, some, ◌++◌, ◌==◌, Str, lit, str_eq,
  is_empty, ok, arith,
}
use didicafe.Base.Map.{insert, Distinct}
use didicafe.Base.Results.{ensure}
use didicafe.Config.{Config, PortalConfig, is_valid_hex_color}
use didicafe.Db.Tables.{Database}
use didicafe.Db.Plans.{set_setting}
use didicafe.Db.Audit.{audit_log}
use didicafe.Firewall.{Firewall}
use didicafe.Portal.{trim}
use didicafe.World.{World, execute, update, query-same}
use didicafe.Web.{AppError, bad_request}
use didicafe.Web.Answered.{rewind, did, lifted}
use didicafe.Settings.{
  SettingsForm, apply_settings, validate_settings, trimmed, settings_submit, portal_config_from_db,
  get_all_settings,
}
use didicafe.Settings.Fields.{
  stored, cafe_name_read, welcome_message_read, theme_color_read, contact_name_read,
  contact_phone_read, contact_hours_read,
}

ensured : (b : Bool) (e : AppError) → ensure b e ≡ ok tt → b ≡ true
ensured true e h = refl
ensured false e h = absurd cc

valid_form :
    (form : SettingsForm)
    → validate_settings form ≡ ok tt
    → (not (is_empty form.cafe_name) ≡ true) × (is_valid_hex_color form.theme_color ≡ true)
unfolding validate_settings
valid_form form h = ground arith

module _ (fw : Firewall) (config : Config) (csrf : Str) (form : SettingsForm) (now : ℕ) where
  log-settings :
      (detail : Option Str) (w : World fw)
      → (update
          (λ db.
            audit_log db config.admin.username
              (lit "update_settings")
              (some (lit "setting"))
              none
              detail
              now)
          w).1.db.settings
        ≡ w.db.settings
  unfolding execute audit_log
  log-settings detail w = ground arith

  -- What an answered submission has written.
  submitted :
      (w : World fw) (answer : PortalConfig)
      → (settings_submit fw config csrf form now w).0 ≡ ok answer
      → ((form.csrf_token == csrf) ≡ true)
        × (validate_settings (trimmed form) ≡ ok tt)
        × ((settings_submit fw config csrf form now w).1.db.settings
            ≡ stored (trimmed form) w.db.settings)
  unfolding settings_submit set_setting portal_config_from_db
  submitted w answer h =
      let (genuine, e1) =
        lifted (ensure (form.csrf_token == csrf) (bad_request (lit "admin.error.csrf"))) _ w answer
          h in
      let h1 = rewind e1 h in
      let (valid, e2) = lifted (validate_settings (trimmed form)) _ w answer h1 in
      let h2 = rewind e2 h1 in
      let set1 : Database → Unit {0} × Database =
        λ db. (tt, set_setting db (lit "cafe_name") (trim form.cafe_name)) in
      let (db1, s1) = did set1 _ w answer h2 in
      let w1 = (execute (λ db. ok (set1 db)) w).1 in
      let g1 = rewind s1 h2 in
      let set2 : Database → Unit {0} × Database =
        λ db. (tt, set_setting db (lit "welcome_message") (trim form.welcome_message)) in
      let (db2, s2) = did set2 _ w1 answer g1 in
      let w2 = (execute (λ db. ok (set2 db)) w1).1 in
      let g2 = rewind s2 g1 in
      let set3 : Database → Unit {0} × Database =
        λ db. (tt, set_setting db (lit "theme_color") (trim form.theme_color)) in
      let (db3, s3) = did set3 _ w2 answer g2 in
      let w3 = (execute (λ db. ok (set3 db)) w2).1 in
      let g3 = rewind s3 g2 in
      let set4 : Database → Unit {0} × Database =
        λ db. (tt, set_setting db (lit "contact_name") (trim form.contact_name)) in
      let (db4, s4) = did set4 _ w3 answer g3 in
      let w4 = (execute (λ db. ok (set4 db)) w3).1 in
      let g4 = rewind s4 g3 in
      let set5 : Database → Unit {0} × Database =
        λ db. (tt, set_setting db (lit "contact_phone") (trim form.contact_phone)) in
      let (db5, s5) = did set5 _ w4 answer g4 in
      let w5 = (execute (λ db. ok (set5 db)) w4).1 in
      let g5 = rewind s5 g4 in
      let set6 : Database → Unit {0} × Database =
        λ db. (tt, set_setting db (lit "contact_hours") (trim form.contact_hours)) in
      let (db6, s6) = did set6 _ w5 answer g5 in
      let w6 = (execute (λ db. ok (set6 db)) w5).1 in
      let g6 = rewind s6 g5 in
      let detail = some (
        lit "cafe_name="
        ++ (trim form.cafe_name ++ (lit ", theme_color=" ++ trim form.theme_color))) in
      let log = update (λ (db : Database).
        audit_log db config.admin.username (lit "update_settings") (some (lit "setting")) none
          detail now) in
      (
        ensured (form.csrf_token == csrf) (bad_request (lit "admin.error.csrf")) genuine,
        valid,
        ap (λ r. r.1.db.settings) (e1 ∙ (e2 ∙ (s1 ∙ (s2 ∙ (s3 ∙ (s4 ∙ (s5 ∙ s6)))))))
            ∙ (ap (λ (db : Database). db.settings) (query-same get_all_settings (log w6).1).0
                ∙ (log-settings detail w6
                    ∙ (ap (λ (db : Database). db.settings) db6
                        ∙ ap (insert (lit "contact_hours") (trim form.contact_hours)) (
                            ap (λ (db : Database). db.settings) db5
                            ∙ ap (insert (lit "contact_phone") (trim form.contact_phone)) (
                                ap (λ (db : Database). db.settings) db4
                                ∙ ap (insert (lit "contact_name") (trim form.contact_name)) (
                                    ap (λ (db : Database). db.settings) db3
                                    ∙ ap (insert (lit "theme_color") (trim form.theme_color)) (
                                        ap (λ (db : Database). db.settings) db2
                                        ∙ ap
                                            (insert (lit "welcome_message")
                                              (trim form.welcome_message))
                                            (ap (λ (db : Database). db.settings) db1)))))))),
      )

  -- After a submission that is answered, in a database whose keys are distinct, every later reading of
  -- the settings gives exactly the trimmed fields of the form, and the form carried the session's token.
  pub settings_submit-apply_settings :
      (w : World fw) (answer : PortalConfig)
      → Distinct w.db.settings
      → (settings_submit fw config csrf form now w).0 ≡ ok answer
      → let after = (settings_submit fw config csrf form now w).1.db in
        let read = apply_settings config.portal (get_all_settings after) in
        (form.csrf_token ≡ csrf)
        × (read.cafe_name ≡ trim form.cafe_name)
        × (read.welcome_message ≡ trim form.welcome_message)
        × (read.theme_color ≡ trim form.theme_color)
        × (read.contact_name ≡ trim form.contact_name)
        × (read.contact_phone ≡ trim form.contact_phone)
        × (read.contact_hours ≡ trim form.contact_hours)
  unfolding get_all_settings
  settings_submit-apply_settings w answer d h =
      let (genuine, valid, rows) = submitted w answer h in
      let (named, coloured) = valid_form (trimmed form) valid in
      let at = ap (apply_settings config.portal) rows in
      let fields = trimmed form in
      let before = w.db.settings in
      (
        (str_eq.equal_iff form.csrf_token csrf).0 genuine,
        ap (λ c. c.cafe_name) at ∙ (cafe_name_read fields before config.portal d ∙ rw named refl),
        ap (λ c. c.welcome_message) at ∙ welcome_message_read fields before config.portal d,
        ap (λ c. c.theme_color) at
            ∙ (theme_color_read fields before config.portal d ∙ rw coloured refl),
        ap (λ c. c.contact_name) at ∙ contact_name_read fields before config.portal d,
        ap (λ c. c.contact_phone) at ∙ contact_phone_read fields before config.portal d,
        ap (λ c. c.contact_hours) at ∙ contact_hours_read fields before config.portal d,
      )
