-- ===== src/Web/Route.antt =====
-- src/web/WebServer.cpp: `authorized` and `route`. The requests behind the login are a table of endpoints,
-- searched from the top as the source tests them. Reports, the import of SOYAL files and the test of the
-- messenger are endpoints that are an argument, as are the hash and the random texts.
pub mod Guarded
pub mod Sessions
use Prim.Native.String.{String}
use monk_skud_unex.Base.{
  ℕ, List, [], ◌∷◌, ◌++◌, Bool, true, false, ◌&&◌, ◌||◌, not, Text, Option, none, some,
  if◌then◌else◌, is_empty, codes, bytes_eq,
}
use monk_skud_unex.Base.Map.{lookup, insert, delete, text_eq}
use monk_skud_unex.Text.Escape.{constant_time_equal}
use monk_skud_unex.Types.{User, Controller, ControllerCardRecord}
use monk_skud_unex.Config.{Config, get, get_bool, set, save, raw, replace_raw}
use monk_skud_unex.Users.Ops.{UserManager}
use monk_skud_unex.Users.Csv.{export_csv, used_departments}
use monk_skud_unex.Departments
use monk_skud_unex.Attendance.{Store}
use monk_skud_unex.Attendance.Maintenance.{refresh_user_metadata}
use monk_skud_unex.Storage.Files.{FileSystem}
use monk_skud_unex.Web.Request.{Req, Form, is_set, parse_form, cookie}
use monk_skud_unex.Web.Site.{
  Site, Handler, Res, Body, text, page, view, done, View, Problem, answer, refuse,
}
use monk_skud_unex.Web.Jobs.Forms.{value_of}
use monk_skud_unex.Web.Jobs
use monk_skud_unex.Web.Users

-- A request, the local time, and the random texts that it may take: of 32 bytes and of 16.
pub record Call : Type 0 where
  pub req : Req
  pub now : Text
  pub token : Text
  pub salt : Text

-- Its path and method, which is empty where all are served, whether its form is the query or the body, and
-- what it does.
pub record Endpoint (S : Type 0) : Type 0 where
  pub path : Text
  pub method : Text
  pub of_query : Bool
  pub handle : Call → Handler S

pub record Server (S : Type 0) : Type 0 where
  pub sessions : List (Text × Text)
  pub site : S

abbrev pub session_cookie : Text
session_cookie = codes "SKUDSID"

abbrev pub is_there : Option Text → Bool
is_there none = false
is_there (some name) = true

unfoldable pub authorized : Req → List (Text × Text) → Bool
authorized r sessions =
    let sid = cookie session_cookie r in not (is_empty sid) && is_there (lookup sid sessions)

-- The files that anybody may read, with the path that asks for them.
abbrev pub public_pages : List (String × String)
public_pages =
    ("/monitor", "monitor.html")
    ∷ ("/monitor.html", "monitor.html")
    ∷ ("/monitor.css", "monitor.css")
    ∷ ("/monitor.js", "monitor.js")
    ∷ ("/mag250", "mag250.html")
    ∷ ("/mag250/", "mag250.html")
    ∷ ("/mag250/index.html", "mag250.html")
    ∷ ("/mag250.css", "mag250.css")
    ∷ ("/mag250.js", "mag250.js")
    ∷ ("/login.html", "login.html")
    ∷ ("/style.css", "style.css")
    ∷ ("/app.js", "app.js")
    ∷ []

unfoldable pub find_page : Text → List (String × String) → Option Text
find_page path [] = none
find_page path ((p, name) ∷ rest) =
    let later = find_page path rest in if bytes_eq path (codes p) then some (codes name) else later

abbrev pub asks : String → String → Req → Bool
asks path method r = bytes_eq r.path (codes path) && bytes_eq r.method (codes method)

abbrev pub no_cache : List (Text × Text)
no_cache =
    (codes "Cache-Control", codes "no-store, no-cache, must-revalidate, max-age=0")
    ∷ (codes "Pragma", codes "no-cache")
    ∷ []

-- `file`: the files of the web directory do not change.
unfoldable pub file : (Text → Option Text) → Text → Res
file read_page name = elim (read_page name) [
  | none ↦ refuse 404 Problem.page_not_found
  | some s ↦ record { code = 200; body = page name s; headers = no_cache }
]

-- The endpoint that a request is for: the first one with its path and method.
unfoldable pub find_endpoint : {S : Type 0} → Req → List (Endpoint S) → Option (Endpoint S)
find_endpoint r [] = none
find_endpoint r (e ∷ es) =
    let later = find_endpoint r es in
    if bytes_eq r.path e.path && (is_empty e.method || bytes_eq r.method e.method)
    then some e
    else later

unfoldable pub dispatch : {S : Type 0} → List (Endpoint S) → Call → S → Res × S
unfolding find_endpoint
dispatch endpoints c s = elim (find_endpoint c.req endpoints) [
  | none ↦ (refuse 404 Problem.not_found, s)
  | some e ↦ e.handle c (parse_form (if e.of_query then c.req.query else c.req.body)) s
]

-- The login as the settings have it.
unfoldable pub is_login : (Text → Text) → Config → Form → Bool
is_login sha256_hex c f =
    let hash = sha256_hex (get (codes "auth.salt") [] c ++ value_of "password" f) in
    bytes_eq (value_of "username" f) (get (codes "auth.username") (codes "admin") c)
    && constant_time_equal hash (get (codes "auth.password_hash") [] c)

module _ {S : Type 0} (sha256_hex : Text → Text) (config_of : S → Config)
    (read_page : Text → Option Text) (endpoints : List (Endpoint S)) where
  unfoldable pub login : Call → Server S → Res × Server S
  unfolding is_login
  login c s =
      let f = parse_form c.req.body in
      if is_login sha256_hex (config_of s.site) f
      then (
        record {
          code = 200;
          body = done true;
          headers =
              (
                codes "Set-Cookie",
                codes "SKUDSID=" ++ (c.token ++ codes "; Path=/; HttpOnly; SameSite=Strict"),
              )
              ∷ [];
        },
        record s { sessions = insert c.token (value_of "username" f) s.sessions },
      )
      else (refuse 401 Problem.wrong_password, s)

  unfoldable pub logout : Req → Server S → Res × Server S
  logout r s = (
    record {
      code = 200;
      body = text (codes "{}");
      headers = (codes "Set-Cookie", codes "SKUDSID=; Path=/; Max-Age=0") ∷ [];
    },
    record s { sessions = delete (cookie session_cookie r) s.sessions },
  )

  -- What is behind the login.
  unfoldable pub inside : Call → Server S → Res × Server S
  unfolding logout dispatch
  inside c s =
      let r = dispatch endpoints c s.site in
      if bytes_eq c.req.path (codes "/api/logout")
      then logout c.req s
      else (r.0, record s { site = r.1 })

  abbrev pub redirect : Res
  redirect = record {
    code = 302;
    body = text [];
    headers = (codes "Location", codes "/login.html") ∷ [];
  }

  unfoldable pub home : Bool → Res
  unfolding file
  home allowed = if allowed then file read_page (codes "index.html") else redirect

  -- The file that a path asks for, or what is behind the files.
  unfoldable pub serve : Option Text → Call → Server S → Res × Server S
  unfolding file login home inside authorized
  serve (some name) c s = (file read_page name, s)
  serve none c s =
      let r = c.req in
      let allowed = authorized r s.sessions in
      if asks "/api/monitor" "GET" r
      then (answer 200 (view View.monitor), s)
      else if asks "/api/login" "POST" r
      then login c s
      else if bytes_eq r.path (codes "/")
      then (home allowed, s)
      else if not allowed
      then (refuse 401 Problem.auth_required, s)
      else inside c s

  unfoldable pub route : Call → Server S → Res × Server S
  unfolding find_page serve
  route c s = serve (find_page c.req.path public_pages) c s
