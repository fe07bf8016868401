-- ===== src/Lib.antt =====
-- A verification library of the WiFi voucher server: a captive portal that sells access by codes.
--
-- The program's parts and the files that model them (paths from the repository's root):
--   src/services/rate_limit.rs     RateLimit: attempts and bans by IP address
--   src/services/csrf.rs           Csrf: one-time form tokens, by MAC or IP
--   src/services/admin_session.rs  AdminSession: the administrator's sessions
--   src/net/mac.rs, arp.rs         Mac: the format of MAC addresses, and the made-up MAC
--   src/services/token.rs          TokenCode: the text of the codes; TokenService: batches of them
--   src/config.rs                  Config: the configuration and its validation; Cidr: networks
--   src/db                         Db: the tables, and each statement as a function on them
--   src/firewall                   Firewall: the trait as a record, the mock, the nft controller
--   src/services/session.rs        SessionService: sessions across the firewall and the database,
--   src/main.rs                    with the ticker and the restoration at a start; Start: the
--                                  listeners, and the administration's over TLS as steps
--   src/net/arp.rs                 Arp: a client's MAC in what the system says of its neighbours
--   src/web/portal.rs              Portal: the handler of the token form, the client's status, the
--                                  pages that only show data, and the prices on them
--   src/web/admin.rs               Login: the administrator's login and logout, and the cookie;
--                                  Manage, Settings: the submissions of these two pages; Pages: the
--                                  pages that only show data
--   src/web/api.rs                 Api: the handlers of the JSON API, with their login in front
--   src/web/mod.rs, error.rs       Web: the routers and their layers, messages, answers of errors
--   src/web/extractors.rs          Web.Extract: what is taken from a request before its handler
--   src/web/captive.rs, cpd.rs     Web.Capport, Web: what a captive client's system is told
-- Base has what they share; Tests has runs at concrete inputs.
--
-- A function of the source is a definition of the same name. State that the source keeps behind
-- locks is a record that an operation takes and returns: operations run one after the other. The
-- limiter's call takes its locks three times, so this leaves out the calls that interleave between
-- them. Clock readings (nanoseconds), random draws and generated tokens are arguments; an operation
-- that reads the clock again after the firewall's process has run takes a Clock of its readings.
-- The services (World) run over a firewall, any value of the record Firewall, and a database, with
-- a list that says which of the coming statements fail. A database is its tables as lists, in the
-- order of the ids, with the order, any at all, that SQLite gives tokens of one second, of which
-- the source's queries ask none. Texts are lists of code points, with their UTF-8 bytes where the
-- source reads bytes. Stored moments are whole seconds. Numbers that the source keeps in 64 bits
-- are natural numbers or integers, where the values cannot come near the bound; the count that is
-- cut to 32 bits is cut in the model. Loops are structural recursion but two, which have fuel: the
-- decimal writer, whose number plus one bounds its digits, and the statistics' table of days, which
-- has seven. A page number from a URL that is so large that the offset of its rows exceeds 64 bits
-- is outside the model.
--
-- A handler (Web.Handler) is an operation on the services that answers or fails with the error that the
-- source maps to a status. What a library does with a request before or after the program's own code
-- (axum's choice of the route, JSON, the parse of an IP address, the check of a header's value) is a
-- parameter.
--
-- Not modelled: the texts of the pages and their style sheet, three shades of which are floating point;
-- the command line, the configuration file's reading and its defaults, the opening of the database and
-- its migrations, the plain HTTP server, password hashing, and the query strings of links to pages.
pub mod Base
pub mod RateLimit
pub mod Csrf
pub mod AdminSession
pub mod Mac
pub mod Arp
pub mod TokenCode
pub mod Db
pub mod Firewall
pub mod World
pub mod SessionService
pub mod TokenService
pub mod Cidr
pub mod Config
pub mod Web
pub mod Api
pub mod Portal
pub mod Login
pub mod Settings
pub mod Manage
pub mod Pages
pub mod Start
pub mod Tests
