-- ===== src/Web/Input.antt =====
-- src/web/admin.rs: the checks of what the administrator submits, on the pages and in the API.
use didicafe.Base.{
  ℕ, not, Option, none, some, [], ◌∷◌, ltb, ◌==◌, if◌then◌else◌, Str, lit, str_eq, byte_len,
  is_empty, any, Result, ok, ◌≡◌, ◌≢◌, ◌↔◌, ◌≤◌, arith,
}
use didicafe.Base.Int.{ℤ, pos, negsuc, pos_part, neg_part, ltb_ℤ, leb_ℤ}
use didicafe.Base.Results.{ensure, ◌>>◌}
use didicafe.Web.{AppError, bad_request}

unfoldable pub validate_plan_input : Str → ℤ → ℤ → Result AppError (Unit {0})
validate_plan_input name duration price =
    ensure (not (is_empty name)) (bad_request (lit "admin.error.name_empty"))
    >> (ensure (not (ltb 100 (byte_len name))) (bad_request (lit "admin.error.name_too_long"))
        >> (ensure (not (leb_ℤ duration (pos 0)))
              (bad_request (lit "admin.error.duration_positive"))
            >> (ensure (not (ltb_ℤ (pos 1440) duration))
                  (bad_request (lit "admin.error.duration_max"))
                >> ensure (not (ltb_ℤ price (pos 0)))
                    (bad_request (lit "admin.error.price_negative")))))

-- A plan lasts between one minute and a day, costs nothing negative and has a name of 1 to 100 bytes.
abbrev pub IsPlanInput : Str → ℤ → ℤ → Type 0
IsPlanInput name duration price =
    (name ≢ [])
    × (byte_len name ≤ 100)
    × (1 ≤ pos_part duration)
    × (pos_part duration ≤ 1440)
    × (neg_part price ≡ 0)

-- The input of a plan passes exactly when it is within its bounds.
pub validate_plan_input-IsPlanInput :
    (name : Str) (duration price : ℤ)
    → (validate_plan_input name duration price ≡ ok tt) ↔ IsPlanInput name duration price
unfolding validate_plan_input
validate_plan_input-IsPlanInput name (pos m) (pos a) = ground arith
validate_plan_input-IsPlanInput name (pos m) (negsuc a) = ground arith
validate_plan_input-IsPlanInput name (negsuc m) price = ground arith

pub record ManageQuery : Type 0 where
  pub token_status : Option Str
  pub token_page : Option ℤ

-- The `match` on the filter's text.
abbrev pub known_filter : Str → Str
known_filter status =
    if any (λ known. known == status)
      (lit "all" ∷ lit "unused" ∷ lit "active" ∷ lit "expired" ∷ lit "revoked" ∷ [])
    then status
    else lit "current"

abbrev pub status_filter : Option Str → Str
status_filter none = lit "current"
status_filter (some status) = known_filter status

-- `.unwrap_or(1).max(1)`
abbrev pub page_number : Option ℤ → ℕ
page_number none = 1
page_number (some page) = if ltb_ℤ page (pos 1) then 1 else pos_part page

unfoldable pub parse_token_query : ManageQuery → Str × ℕ
parse_token_query query = (status_filter query.token_status, page_number query.token_page)
