-- ===== src/Web/Users/Saved.antt =====
-- src/web/WebServer.cpp: what holds of a user that a form gives.
use monk_skud_unex.Base.{
  Bool, true, false, ◌&&◌, ◌||◌, Text, pos, leb_ℤ, codes, bytes_eq, is_empty, ◌⊎◌, ◌≡◌,
}
use monk_skud_unex.Types.{User}
use monk_skud_unex.Web.Users.Fields.{valid_pin, needs_pin, known_mode}

pub record Sound (u : User) : Type 0 where
  pub pin : (is_empty u.pin_code ≡ true) ⊎ (valid_pin u.pin_code ≡ true)
  pub has_pin : (needs_pin u.access_mode && is_empty u.pin_code) ≡ false
  pub mode : known_mode u.access_mode ≡ u.access_mode
  pub from : leb_ℤ (pos 0) u.controller_port ≡ true
  pub to : leb_ℤ u.controller_port (pos 1023) ≡ true

abbrev is_mode : Text → Bool
is_mode m = bytes_eq m (codes "card") || needs_pin m
