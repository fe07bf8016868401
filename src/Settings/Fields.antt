-- ===== src/Settings/Fields.antt =====
-- src/web/admin.rs: each field of the configuration is the value of its key.
use didicafe.Base.{
  ◌≡◌, refl, ap, subst, ◌∙◌, Bool, true, false, not, Option, none, some, List, [], ◌∷◌,
  if◌then◌else◌, ◌==◌, Str, lit, str_eq, is_empty, arith, list_beq, Bool-cases, inl, inr,
}
use didicafe.Base.Map.{get, insert, get-insert, Distinct, insert-Distinct}
use didicafe.Config.{PortalConfig, is_valid_hex_color}
use didicafe.Settings.{SettingsForm, apply_setting, apply_settings}

-- What a field is once the rows are applied: the value of its key, if that is accepted.
abbrev chosen : (Str → Bool) → Option Str → Str → Str
chosen accept none before = before
chosen accept (some value) before = if accept value then value else before

module _ (field : PortalConfig → Str) (key : Str) (accept : Str → Bool)
    (here : (cfg : PortalConfig) (value : Str)
      → field (apply_setting cfg (key, value)) ≡ (if accept value then value else field cfg))
    (elsewhere : (cfg : PortalConfig) (other value : Str)
      → (other == key) ≡ false
      → field (apply_setting cfg (other, value)) ≡ field cfg) where
  kept :
      (settings : List (Str × Str)) (cfg : PortalConfig)
      → get key settings ≡ none
      → field (apply_settings cfg settings) ≡ field cfg
  unfolding apply_settings get
  kept [] cfg h = refl
  kept ((other, value) ∷ settings) cfg h =
      let apart : (other == key) ≡ false = ground arith in
      kept settings (apply_setting cfg (other, value)) (ground (arith, apart))
      ∙ elsewhere cfg other value apart

  field_of :
      (settings : List (Str × Str)) (cfg : PortalConfig)
      → Distinct settings
      → field (apply_settings cfg settings) ≡ chosen accept (get key settings) (field cfg)
  unfolding apply_settings get
  field_of [] cfg d = refl
  field_of ((other, value) ∷ settings) cfg (fresh, d) = elim (Bool-cases (other == key)) [
    | inl same ↦
        let equal = (str_eq.equal_iff other key).0 same in
        let gone : get key settings ≡ none = subst (λ k. get k settings ≡ none) equal fresh in
        rw same (
          kept settings (apply_setting cfg (other, value)) gone
          ∙ (ap (λ k. field (apply_setting cfg (k, value))) equal ∙ here cfg value))
    | inr apart ↦ rw apart (
        field_of settings (apply_setting cfg (other, value)) d
        ∙ ap (chosen accept (get key settings)) (elsewhere cfg other value apart))
  ]

-- The rows that a submission leaves.
abbrev pub stored : SettingsForm → List (Str × Str) → List (Str × Str)
stored form settings = insert (lit "contact_hours") form.contact_hours (
    insert (lit "contact_phone") form.contact_phone (
      insert (lit "contact_name") form.contact_name (
        insert (lit "theme_color") form.theme_color (
          insert (lit "welcome_message") form.welcome_message
            (insert (lit "cafe_name") form.cafe_name settings)))))

stored-Distinct :
    (form : SettingsForm) (settings : List (Str × Str))
    → Distinct settings
    → Distinct (stored form settings)
stored-Distinct form settings d = insert-Distinct _ _ _ (
    insert-Distinct _ _ _ (
      insert-Distinct _ _ _
        (insert-Distinct _ _ _ (insert-Distinct _ _ _ (insert-Distinct _ _ settings d)))))

cafe_name_here :
    (cfg : PortalConfig) (value : Str)
    → (apply_setting cfg (lit "cafe_name", value)).cafe_name
      ≡ (if (λ (v : Str). not (is_empty v)) value then value else cfg.cafe_name)
unfolding apply_setting list_beq
cafe_name_here cfg value = ground arith

cafe_name_elsewhere :
    (cfg : PortalConfig) (other value : Str)
    → (other == lit "cafe_name") ≡ false
    → (apply_setting cfg (other, value)).cafe_name ≡ cfg.cafe_name
unfolding apply_setting
cafe_name_elsewhere cfg other value apart = ground arith

pub cafe_name_read :
    (form : SettingsForm) (settings : List (Str × Str)) (cfg : PortalConfig)
    → Distinct settings
    → (apply_settings cfg (stored form settings)).cafe_name
      ≡ chosen (λ (v : Str). not (is_empty v)) (some form.cafe_name) cfg.cafe_name
unfolding list_beq
cafe_name_read form settings cfg d =
    let at : get (lit "cafe_name") (stored form settings) ≡ some form.cafe_name =
      simp get-insert refl in
    field_of (λ (cfg : PortalConfig). cfg.cafe_name) (lit "cafe_name")
      (λ (v : Str). not (is_empty v)) cafe_name_here cafe_name_elsewhere (stored form settings) cfg
      (stored-Distinct form settings d)
    ∙ ap (λ o. chosen (λ (v : Str). not (is_empty v)) o cfg.cafe_name) at

welcome_message_here :
    (cfg : PortalConfig) (value : Str)
    → (apply_setting cfg (lit "welcome_message", value)).welcome_message
      ≡ (if (λ (v : Str). true) value then value else cfg.welcome_message)
unfolding apply_setting list_beq
welcome_message_here cfg value = ground arith

welcome_message_elsewhere :
    (cfg : PortalConfig) (other value : Str)
    → (other == lit "welcome_message") ≡ false
    → (apply_setting cfg (other, value)).welcome_message ≡ cfg.welcome_message
unfolding apply_setting
welcome_message_elsewhere cfg other value apart = ground arith

pub welcome_message_read :
    (form : SettingsForm) (settings : List (Str × Str)) (cfg : PortalConfig)
    → Distinct settings
    → (apply_settings cfg (stored form settings)).welcome_message
      ≡ chosen (λ (v : Str). true) (some form.welcome_message) cfg.welcome_message
unfolding list_beq
welcome_message_read form settings cfg d =
    let at : get (lit "welcome_message") (stored form settings) ≡ some form.welcome_message =
      simp get-insert refl in
    field_of (λ (cfg : PortalConfig). cfg.welcome_message) (lit "welcome_message")
      (λ (v : Str). true) welcome_message_here welcome_message_elsewhere (stored form settings) cfg
      (stored-Distinct form settings d)
    ∙ ap (λ o. chosen (λ (v : Str). true) o cfg.welcome_message) at

theme_color_here :
    (cfg : PortalConfig) (value : Str)
    → (apply_setting cfg (lit "theme_color", value)).theme_color
      ≡ (if is_valid_hex_color value then value else cfg.theme_color)
unfolding apply_setting list_beq
theme_color_here cfg value = ground arith

theme_color_elsewhere :
    (cfg : PortalConfig) (other value : Str)
    → (other == lit "theme_color") ≡ false
    → (apply_setting cfg (other, value)).theme_color ≡ cfg.theme_color
unfolding apply_setting
theme_color_elsewhere cfg other value apart = ground arith

pub theme_color_read :
    (form : SettingsForm) (settings : List (Str × Str)) (cfg : PortalConfig)
    → Distinct settings
    → (apply_settings cfg (stored form settings)).theme_color
      ≡ chosen is_valid_hex_color (some form.theme_color) cfg.theme_color
unfolding list_beq
theme_color_read form settings cfg d =
    let at : get (lit "theme_color") (stored form settings) ≡ some form.theme_color =
      simp get-insert refl in
    field_of (λ (cfg : PortalConfig). cfg.theme_color) (lit "theme_color") is_valid_hex_color
      theme_color_here theme_color_elsewhere (stored form settings) cfg
      (stored-Distinct form settings d)
    ∙ ap (λ o. chosen is_valid_hex_color o cfg.theme_color) at

contact_name_here :
    (cfg : PortalConfig) (value : Str)
    → (apply_setting cfg (lit "contact_name", value)).contact_name
      ≡ (if (λ (v : Str). true) value then value else cfg.contact_name)
unfolding apply_setting list_beq
contact_name_here cfg value = ground arith

contact_name_elsewhere :
    (cfg : PortalConfig) (other value : Str)
    → (other == lit "contact_name") ≡ false
    → (apply_setting cfg (other, value)).contact_name ≡ cfg.contact_name
unfolding apply_setting
contact_name_elsewhere cfg other value apart = ground arith

pub contact_name_read :
    (form : SettingsForm) (settings : List (Str × Str)) (cfg : PortalConfig)
    → Distinct settings
    → (apply_settings cfg (stored form settings)).contact_name
      ≡ chosen (λ (v : Str). true) (some form.contact_name) cfg.contact_name
unfolding list_beq
contact_name_read form settings cfg d =
    let at : get (lit "contact_name") (stored form settings) ≡ some form.contact_name =
      simp get-insert refl in
    field_of (λ (cfg : PortalConfig). cfg.contact_name) (lit "contact_name") (λ (v : Str). true)
      contact_name_here contact_name_elsewhere (stored form settings) cfg
      (stored-Distinct form settings d)
    ∙ ap (λ o. chosen (λ (v : Str). true) o cfg.contact_name) at

contact_phone_here :
    (cfg : PortalConfig) (value : Str)
    → (apply_setting cfg (lit "contact_phone", value)).contact_phone
      ≡ (if (λ (v : Str). true) value then value else cfg.contact_phone)
unfolding apply_setting list_beq
contact_phone_here cfg value = ground arith

contact_phone_elsewhere :
    (cfg : PortalConfig) (other value : Str)
    → (other == lit "contact_phone") ≡ false
    → (apply_setting cfg (other, value)).contact_phone ≡ cfg.contact_phone
unfolding apply_setting
contact_phone_elsewhere cfg other value apart = ground arith

pub contact_phone_read :
    (form : SettingsForm) (settings : List (Str × Str)) (cfg : PortalConfig)
    → Distinct settings
    → (apply_settings cfg (stored form settings)).contact_phone
      ≡ chosen (λ (v : Str). true) (some form.contact_phone) cfg.contact_phone
unfolding list_beq
contact_phone_read form settings cfg d =
    let at : get (lit "contact_phone") (stored form settings) ≡ some form.contact_phone =
      simp get-insert refl in
    field_of (λ (cfg : PortalConfig). cfg.contact_phone) (lit "contact_phone") (λ (v : Str). true)
      contact_phone_here contact_phone_elsewhere (stored form settings) cfg
      (stored-Distinct form settings d)
    ∙ ap (λ o. chosen (λ (v : Str). true) o cfg.contact_phone) at

contact_hours_here :
    (cfg : PortalConfig) (value : Str)
    → (apply_setting cfg (lit "contact_hours", value)).contact_hours
      ≡ (if (λ (v : Str). true) value then value else cfg.contact_hours)
unfolding apply_setting list_beq
contact_hours_here cfg value = ground arith

contact_hours_elsewhere :
    (cfg : PortalConfig) (other value : Str)
    → (other == lit "contact_hours") ≡ false
    → (apply_setting cfg (other, value)).contact_hours ≡ cfg.contact_hours
unfolding apply_setting
contact_hours_elsewhere cfg other value apart = ground arith

pub contact_hours_read :
    (form : SettingsForm) (settings : List (Str × Str)) (cfg : PortalConfig)
    → Distinct settings
    → (apply_settings cfg (stored form settings)).contact_hours
      ≡ chosen (λ (v : Str). true) (some form.contact_hours) cfg.contact_hours
unfolding list_beq
contact_hours_read form settings cfg d =
    let at : get (lit "contact_hours") (stored form settings) ≡ some form.contact_hours =
      simp get-insert refl in
    field_of (λ (cfg : PortalConfig). cfg.contact_hours) (lit "contact_hours") (λ (v : Str). true)
      contact_hours_here contact_hours_elsewhere (stored form settings) cfg
      (stored-Distinct form settings d)
    ∙ ap (λ o. chosen (λ (v : Str). true) o cfg.contact_hours) at
