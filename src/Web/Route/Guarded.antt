-- ===== src/Web/Route/Guarded.antt =====
-- src/web/WebServer.cpp: what a request without a session reaches, and where sessions come from.
use monk_skud_unex.Base.{
  List, false, Text, Option, none, some, bytes_eq, codes, ◌≡◌, inl, inr, refl, Bool-cases,
}
use monk_skud_unex.Base.Map.{text_eq}
use monk_skud_unex.Config.{Config}
use monk_skud_unex.Web.Request.{Req}
use monk_skud_unex.Web.Site.{Res, view, View, Problem, refuse, answer}
use monk_skud_unex.Web.Route.{
  Call, Endpoint, Server, authorized, find_page, public_pages, asks, file, home, serve, route,
}

module _ {S : Type 0} (sha256_hex : Text → Text) (config_of : S → Config)
    (read_page : Text → Option Text) (endpoints : List (Endpoint S)) where
  abbrev step : Call → Server S → Res × Server S
  step = route sha256_hex config_of read_page endpoints

  -- What may be shown to anybody.
  pub data Open (r : Req) : Res → Type 0 where
    public_file :
        (name : Text) → find_page r.path public_pages ≡ some name → Open r (file read_page name)
    the_monitor : Open r (answer 200 (view View.monitor))
    to_login : Open r (home sha256_hex config_of read_page endpoints false)
    needs_login : Open r (refuse 401 Problem.auth_required)

  serve-Open :
      (o : Option Text) (c : Call) (s : Server S)
      → find_page c.req.path public_pages ≡ o
      → authorized c.req s.sessions ≡ false
      → asks "/api/login" "POST" c.req ≡ false
      → let r = serve sha256_hex config_of read_page endpoints o c s in Open c.req r.0 × (r.1 ≡ s)
  unfolding serve
  serve-Open (some name) c s e out other = (public_file name e, refl)
  serve-Open none c s e out other = elim (Bool-cases (asks "/api/monitor" "GET" c.req)) [
    | inl monitor' ↦ rw (monitor', serve) (the_monitor, refl)
    | inr not_monitor ↦ elim (Bool-cases (bytes_eq c.req.path (codes "/"))) [
      | inl root ↦ rw (not_monitor, other, root, out, serve) (to_login, refl)
      | inr deeper ↦ rw (not_monitor, other, deeper, out, serve) (needs_login, refl)
    ]
  ]

  -- A request without a session that is not the login changes nothing, whatever its method and form, and
  -- is answered by a public file, the monitor, the way to the login, or 401.
  pub route-Open :
      (c : Call) (s : Server S)
      → authorized c.req s.sessions ≡ false
      → asks "/api/login" "POST" c.req ≡ false
      → let r = route sha256_hex config_of read_page endpoints c s in Open c.req r.0 × (r.1 ≡ s)
  unfolding route
  route-Open c s out other = serve-Open (find_page c.req.path public_pages) c s refl out other
