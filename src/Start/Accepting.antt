-- ===== src/Start/Accepting.antt =====
-- src/main.rs, src/web/mod.rs: whatever happens to the connections, in whatever order.
use didicafe.Base.{ℕ, ◌≡◌, Bool, true, ◌&&◌, Option, List, [], ◌∷◌, Str, All}
use didicafe.RateLimit.{IpAddr}
use didicafe.Config.{Config}
use didicafe.Web.{Response}
use didicafe.Web.Layers.{HttpRequest, Service}
use didicafe.Web.Routes.{Table, admin_router}
use didicafe.Start.{Event, accepted, Task, Acceptor}

-- The connections of a schedule come from addresses that satisfy `p`.
abbrev pub all_from : (IpAddr → Bool) → List Event → Bool
all_from p [] = true
all_from p (accepted ip ∷ events) = p ip && all_from p events
all_from p (event ∷ events) = all_from p events

abbrev FromOk : (IpAddr → Bool) → Task → Type 0
FromOk p t = p t.remote_addr ≡ true

-- A property of answers and states that the router keeps for the addresses in `p`.
module _ {S : Type 0} (app : Service S) (p : IpAddr → Bool) (Good : Response → Type 0)
    (Kept : S → Type 0)
    (keeps : (r : HttpRequest) (s : S)
      → p r.peer ≡ true
      → Kept s
      → Good (app r s).0 × Kept (app r s).1) where
  record Inv (a : Acceptor S) : Type 0 where
    from : All (FromOk p) a.tasks
    good : All Good a.answers
    kept : Kept a.state

module _ {S : Type 0} (dispatch : Table → Str → Service S) (to_string : ℕ → Str)
    (from_str : Str → Option Str) (parse_ip : Str → Option IpAddr) (config : Config) (s : S) where
  abbrev router : Service S
  router = admin_router dispatch to_string from_str parse_ip config
