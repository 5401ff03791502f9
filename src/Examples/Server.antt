-- ===== src/Examples/Server.antt =====
-- The web server on a small site: requests with and without a session, and the forms of a user and of an
-- upload.
use monk_skud_unex.Base.{
  ℕ, suc, List, [], ◌∷◌, Bool, true, false, ◌&&◌, Text, Option, none, some, ℤ, pos, All, IsByte,
  codes, if◌then◌else◌, is_empty, ◌≡◌, refl,
}
use monk_skud_unex.Types.{User, new_user}
use monk_skud_unex.Config.{Config}
use monk_skud_unex.Web.Request.{Req, Form, is_set, parse_form, parse_head}
use monk_skud_unex.Web.Request.Form.{url_encode}
use monk_skud_unex.Web.Site.{answer, done}
use monk_skud_unex.Web.Jobs.Forms.{upload_users, enabled_users}
use monk_skud_unex.Web.Jobs.Full.{Ready, Apart, upload_users-Ready}
use monk_skud_unex.Web.Route.{Call, Endpoint, Server, authorized, asks, route}
use monk_skud_unex.Web.Route.Guarded.{Open, route-Open}
use monk_skud_unex.Web.Route.Sessions.{From, has_session, run, run-From}

abbrev as_it_is : Text → Text
as_it_is s = s

abbrev site_config : Config → Config
site_config c = c

abbrev one_page : Text → Option Text
one_page name = some (codes "<html>")

-- Hashes are the texts themselves: the salt and the password.
abbrev small_site : Config
small_site = record {
  path = codes "system.conf";
  kv = (codes "auth.salt", codes "s") ∷ (codes "auth.password_hash", codes "sx") ∷ [];
}

abbrev clear_all : Endpoint Config
clear_all = record {
  path = codes "/api/clear";
  method = codes "POST";
  of_query = false;
  handle = λ c f s. (answer 200 (done true), record s { kv = [] });
}

abbrev closed_server : Server Config
closed_server = record { sessions = []; site = small_site }

abbrev post : Text → Text → Call
post path body = record {
  req = record { method = codes "POST"; path = path; query = []; body = body; headers = [] };
  now = [];
  token = codes "t1";
  salt = [];
}

abbrev clear_call : Call
clear_call = post (codes "/api/clear") []

abbrev login_call : Call
login_call = post (codes "/api/login") (codes "username=admin&password=x")

no_session : authorized clear_call.req closed_server.sessions ≡ false
unfolding authorized monk_skud_unex.Web.Request.cookie monk_skud_unex.Base.Map.lookup
no_session = refl

no_login : asks "/api/login" "POST" clear_call.req ≡ false
unfolding monk_skud_unex.Base.bytes_eq
no_login = refl

route-Open_example :
    let r = route as_it_is site_config one_page (clear_all ∷ []) clear_call closed_server in
    Open as_it_is site_config one_page (clear_all ∷ []) clear_call.req r.0 × (r.1 ≡ closed_server)
route-Open_example =
    route-Open as_it_is site_config one_page (clear_all ∷ []) clear_call closed_server no_session
      no_login

logged_in :
    has_session (codes "t1") (
      run as_it_is site_config one_page
        (clear_all ∷ [])
        (login_call ∷ clear_call ∷ [])
        closed_server)
    ≡ true
unfolding monk_skud_unex.Base.Map.lookup run route monk_skud_unex.Base.bytes_eq
    monk_skud_unex.Web.Request.cookie monk_skud_unex.Web.Request.field parse_form
    monk_skud_unex.Text.split monk_skud_unex.Base.Map.insert monk_skud_unex.Text.cut
    monk_skud_unex.Config.get monk_skud_unex.Text.Escape.constant_time_equal
logged_in = refl

run-From_example :
    From as_it_is site_config one_page
      (clear_all ∷ [])
      (codes "t1")
      (login_call ∷ clear_call ∷ [])
      closed_server
run-From_example =
    run-From as_it_is site_config one_page (clear_all ∷ []) (codes "t1")
      (login_call ∷ clear_call ∷ []) closed_server logged_in

abbrev all_users_form : Form
all_users_form = (codes "all_users", codes "1") ∷ []

abbrev with_slot : ℕ → Text → User
with_slot n card = record new_user { id = pos n; controller_port = pos n; card = card }

abbrev two_users : List User
two_users = with_slot 1 (codes "1:2") ∷ with_slot 2 (codes "1:3") ∷ []

asks_all : is_set (codes "all_users") all_users_form ≡ true
unfolding monk_skud_unex.Base.bytes_eq monk_skud_unex.Web.Request.field
    monk_skud_unex.Base.Map.lookup
asks_all = refl

nothing_wrong : (upload_users all_users_form two_users).1 ≡ none
unfolding upload_users monk_skud_unex.Base.bytes_eq monk_skud_unex.Web.Request.field
    monk_skud_unex.Base.Map.lookup
nothing_wrong = refl

upload_users-Ready_example :
    let chosen = (upload_users all_users_form two_users).0 in
    (chosen ≡ enabled_users two_users) × All Ready chosen × Apart chosen
upload_users-Ready_example = upload_users-Ready all_users_form two_users asks_all nothing_wrong

encoded : url_encode (codes "a&") ≡ codes "a%26"
unfolding url_encode
encoded = refl

abbrev pin_form : Form
pin_form =
    (codes "last_name", codes "A")
    ∷ (codes "pin_code", codes "0420")
    ∷ (codes "access_mode", codes "card_or_pin")
    ∷ (codes "controller_port", codes "7")
    ∷ []

abbrev pin_user : User
pin_user = record new_user {
  last_name = codes "A";
  pin_code = codes "0420";
  access_mode = codes "card_or_pin";
  controller_port = pos 7;
}
