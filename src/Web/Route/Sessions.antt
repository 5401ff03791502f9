-- ===== src/Web/Route/Sessions.antt =====
-- src/web/WebServer.cpp: where the sessions of the server come from.
use monk_skud_unex.Base.{
  List, [], ◌∷◌, Bool, true, false, Text, Option, none, some, bytes_eq, bytes_eq_iff, codes, ◌≡◌,
  ◌⊎◌, inl, inr, sym, ◌∙◌, arith, Bool-cases,
}
use monk_skud_unex.Base.Map.{lookup, insert, delete, lookup-insert, lookup-delete, text_eq}
use monk_skud_unex.Config.{Config}
use monk_skud_unex.Web.Request.{parse_form, cookie}
use monk_skud_unex.Web.Route.{
  Call, Endpoint, Server, authorized, find_page, public_pages, asks, is_login, login, logout,
  inside, serve, route, is_there, session_cookie,
}

abbrev pub has_session : {S : Type 0} → Text → Server S → Bool
has_session sid s = is_there (lookup sid s.sessions)

insert_elsewhere :
    (k sid name : Text) (m : List (Text × Text))
    → bytes_eq k sid ≡ false
    → is_there (lookup sid (insert k name m)) ≡ is_there (lookup sid m)
insert_elsewhere k sid name m other = ground (arith, other, lookup-insert k sid name m)

delete_rest :
    (k sid : Text) (m : List (Text × Text))
    → is_there (lookup sid (delete k m)) ≡ true
    → is_there (lookup sid m) ≡ true
delete_rest k sid m h = ground (arith, h, lookup-delete k sid m)

module _ {S : Type 0} (sha256_hex : Text → Text) (config_of : S → Config)
    (read_page : Text → Option Text) (endpoints : List (Endpoint S)) where
  abbrev pub step : Call → Server S → Server S
  step c s = (route sha256_hex config_of read_page endpoints c s).1

  -- The requests in their order.
  unfoldable pub run : List Call → Server S → Server S
  run [] s = s
  run (c ∷ cs) s = run cs (step c s)

  -- A login with the name and the password that the settings have then, which gave this session.
  pub record Issued (sid : Text) (c : Call) (s : Server S) : Type 0 where
    pub token : c.token ≡ sid
    pub asked : asks "/api/login" "POST" c.req ≡ true
    pub passed : is_login sha256_hex (config_of s.site) (parse_form c.req.body) ≡ true

  pub data From (sid : Text) : List Call → Server S → Type 0 where
    at_start : (cs : List Call) (s : Server S) → has_session sid s ≡ true → From sid cs s
    by_login : (c : Call) (cs : List Call) (s : Server S) → Issued sid c s → From sid (c ∷ cs) s
    later :
        (c : Call) (cs : List Call) (s : Server S) → From sid cs (step c s) → From sid (c ∷ cs) s

  abbrev Origin : Text → Call → Server S → Server S → Type 0
  Origin sid c s after = has_session sid after ≡ true → (has_session sid s ≡ true) ⊎ Issued sid c s

  login-Origin :
      (sid : Text) (c : Call) (s : Server S)
      → asks "/api/login" "POST" c.req ≡ true
      → Origin sid c s (login sha256_hex config_of read_page endpoints c s).1
  unfolding login
  login-Origin sid c s asked =
      elim (Bool-cases (is_login sha256_hex (config_of s.site) (parse_form c.req.body))) [
        | inr failed ↦ rw (failed, login) (λ h. inl h)
        | inl passed ↦
            rw (passed, login)
              (λ h. elim (Bool-cases (bytes_eq c.token sid)) [
                | inl same ↦ inr (record {
                  token = (bytes_eq_iff c.token sid).0 same;
                  asked = asked;
                  passed = passed;
                })
                | inr other ↦ inl (sym (insert_elsewhere c.token sid _ s.sessions other) ∙ h)
              ])
      ]

  inside-Origin :
      (sid : Text) (c : Call) (s : Server S)
      → Origin sid c s (inside sha256_hex config_of read_page endpoints c s).1
  unfolding inside logout
  inside-Origin sid c s = elim (Bool-cases (bytes_eq c.req.path (codes "/api/logout"))) [
    | inr other ↦ rw (other, inside) (λ h. inl h)
    | inl out ↦
        rw (out, inside) (λ h. inl (delete_rest (cookie session_cookie c.req) sid s.sessions h))
  ]

  serve-Origin :
      (sid : Text) (o : Option Text) (c : Call) (s : Server S)
      → Origin sid c s (serve sha256_hex config_of read_page endpoints o c s).1
  unfolding serve
  serve-Origin sid (some name) c s = λ h. inl h
  serve-Origin sid none c s = elim (Bool-cases (asks "/api/monitor" "GET" c.req)) [
    | inl monitor' ↦ rw (monitor', serve) (λ h. inl h)
    | inr not_monitor ↦ elim (Bool-cases (asks "/api/login" "POST" c.req)) [
      | inl asked ↦ rw (not_monitor, asked, serve) (login-Origin sid c s asked)
      | inr no_login ↦ elim (Bool-cases (bytes_eq c.req.path (codes "/"))) [
        | inl root ↦ rw (not_monitor, no_login, root, serve) (λ h. inl h)
        | inr deeper ↦ elim (Bool-cases (authorized c.req s.sessions)) [
          | inl allowed ↦ rw (not_monitor, no_login, deeper, allowed, serve) (inside-Origin sid c s)
          | inr out ↦ rw (not_monitor, no_login, deeper, out, serve) (λ h. inl h)
        ]
      ]
    ]
  ]

  -- A session that is open behind any series of requests was open before, or one of the requests was a
  -- login with the name and the password that the settings had then, and got it.
  pub run-From :
      (sid : Text) (cs : List Call) (s : Server S)
      → has_session sid (run cs s) ≡ true
      → From sid cs s
  unfolding run route
  run-From sid [] s h = at_start [] s h
  run-From sid (c ∷ cs) s h = elim (Bool-cases (has_session sid (step c s))) [
    | inr closed ↦ later c cs s (run-From sid cs (step c s) h)
    | inl opened ↦ elim (serve-Origin sid (find_page c.req.path public_pages) c s opened) [
      | inl before ↦ at_start (c ∷ cs) s before
      | inr issued ↦ by_login c cs s issued
    ]
  ]
