-- ===== src/Pages/Tokens.antt =====
-- src/web/admin.rs, src/db/mod.rs: turning over the pages of the tokens.
use didicafe.Base.{ℕ, ◌-◌, ◌*◌, ◌≡◌, Option, List, [], Str, Result, ok, err, take, drop}
use didicafe.Base.Int.{ℤ}
use didicafe.Config.{Config}
use didicafe.Db.Models.{Token, total_pages}
use didicafe.Db.Tokens.{Filter, filter_of, selected}
use didicafe.Db.Plans as Plan_rows
use didicafe.Db.Sessions as Session_rows
use didicafe.Firewall.{Firewall}
use didicafe.World.{World}
use didicafe.Web.{AppError}
use didicafe.Manage.{db_filter}
use didicafe.Web.Input.{status_filter}
use didicafe.Pages.{ManageTemplate, manage_page}

-- The tokens that the answer to a request shows, and the number of pages that it says there are.
abbrev pub tokens_of : Result AppError ManageTemplate → List Token
tokens_of (ok shown) = shown.page.token_page.tokens
tokens_of (err e) = []

abbrev pub total_of : Result AppError ManageTemplate → ℕ
total_of (ok shown) = shown.page.token_page.total
total_of (err e) = 0

abbrev pub pages_of : Result AppError ManageTemplate → ℕ
pages_of (ok shown) = total_pages shown.page.token_page.total shown.page.token_page.per_page
pages_of (err e) = 0

module _ (fw : Firewall) (config : Config) (to_string : ℕ → Str) (csrf : Str) (now : ℕ)
    (w : World fw) (quiet : w.io ≡ []) (status : Option Str) where
  abbrev chosen : Filter
  chosen = filter_of (db_filter (status_filter status))

  abbrev page : Option ℤ → Result AppError ManageTemplate
  page requested =
      (manage_page fw config to_string csrf
        (record { token_status = status; token_page = requested }) now w).0

  abbrev page_rows : ℕ → List Token
  page_rows i = take 50 (drop ((i - 1) * 50) (selected w.db chosen ((i - 1) * 50) now))

  -- As many rows as page `i` has, taken from one order.
  abbrev page_of : ℕ → List Token
  page_of i = take 50 (drop ((i - 1) * 50) (selected w.db chosen 0 now))
