-- ===== src/Notifier.antt =====
-- src/telegram/TelegramNotifier.cpp: the queue of notices, which of them are sent, and their texts. The
-- process that runs `curl` is an argument: it is given its arguments and tells whether it ended well.
-- Pauses are left out.
pub mod Sent
use monk_skud_unex.Base.{
  ℕ, ◌+◌, ◌*◌, max, List, [], ◌∷◌, ◌++◌, Bool, true, false, ◌&&◌, ◌||◌, not, Text, Option, none,
  some, ℤ, pos, negsuc, eq_ℤ, leb_ℤ, ◌-ℤ◌, if◌then◌else◌, is_empty, codes, utf8,
}
use monk_skud_unex.Text.Int.{int_text}
use monk_skud_unex.Text.Escape.{html_escape}
use monk_skud_unex.Types.{AttendanceEvent, AttendanceEventType, arrival}
use monk_skud_unex.Config.{Config, get, get_int, get_bool}
use monk_skud_unex.Reports.Telegram.{attempt}
use monk_skud_unex.Reports.Deliver.{retries}

unfoldable pub enqueue : Config → AttendanceEvent → List AttendanceEvent → List AttendanceEvent
enqueue c e q = if get_bool (codes "telegram.enabled") false c then q ++ e ∷ [] else q

abbrev url_of : Text → Text → Text
url_of token method = codes "https://api.telegram.org/bot" ++ (token ++ method)

module _ {W : Type 0} (curl : List Text → W → Bool × W) where
  unfoldable pub send_message : Config → Text → Text → W → Bool × W
  send_message c text parse_mode w =
      let token = get (codes "telegram.bot_token") [] c in
      let chat = get (codes "telegram.chat_id") [] c in
      let mode =
        if is_empty parse_mode
        then []
        else codes "--data-urlencode" ∷ (codes "parse_mode=" ++ parse_mode) ∷ [] in
      let closing =
        codes "--data-urlencode"
        ∷ codes "disable_web_page_preview=true"
        ∷ url_of token (codes "/sendMessage")
        ∷ [] in
      if is_empty token || is_empty chat
      then (false, w)
      else curl
          (codes "-fsS"
            ∷ codes "--max-time"
            ∷ codes "15"
            ∷ codes "-X"
            ∷ codes "POST"
            ∷ codes "--data-urlencode"
            ∷ (codes "chat_id=" ++ chat)
            ∷ codes "--data-urlencode"
            ∷ (codes "text=" ++ text)
            ∷ (mode ++ closing))
          w

  unfoldable pub send_text : Config → Text → W → Bool × W
  unfolding send_message
  send_text c text w = send_message c text [] w

  unfoldable pub send_html : Config → Text → W → Bool × W
  unfolding send_message
  send_html c html w = send_message c html (codes "HTML") w

  -- `access` tells whether the report file can be read.
  unfoldable pub send_document : (Text → W → Bool) → Config → Text → Text → W → Bool × W
  send_document access c path caption w =
      let token = get (codes "telegram.bot_token") [] c in
      let chat = get (codes "telegram.chat_id") [] c in
      if is_empty token || is_empty chat
      then (false, w)
      else if is_empty path || not (access path w)
      then (false, w)
      else curl
          (codes "-fsS"
            ∷ codes "--max-time"
            ∷ codes "30"
            ∷ codes "-X"
            ∷ codes "POST"
            ∷ codes "-F"
            ∷ (codes "chat_id=" ++ chat)
            ∷ codes "-F"
            ∷ (codes "document=@" ++ path)
            ∷ codes "-F"
            ∷ (codes "caption=" ++ caption)
            ∷ url_of token (codes "/sendDocument")
            ∷ [])
          w

  unfoldable pub send_test : Config → W → Bool × W
  unfolding send_html
  send_test c w =
      send_html c
        (utf8
          "<b>Monk SKUD UNEX</b>\n✅ Telegram подключен. Автоматические уведомления о приходе/уходе активны при включенных настройках.")
        w

abbrev pub is_arrival : AttendanceEventType → Bool
is_arrival arrival = true
is_arrival _ = false

-- The settings and the user allow the notice.
unfoldable pub is_wanted : Config → AttendanceEvent → Bool
is_wanted c e =
    if is_arrival e.event_type
    then get_bool (codes "telegram.notify_arrival") true c && e.telegram_arrival
    else get_bool (codes "telegram.notify_departure") true c && e.telegram_departure

unfoldable pub max_age : Config → ℕ
max_age c = elim (get_int (codes "telegram.notify_recent_minutes") (pos 10) c) [
  | pos n ↦ max 1 n
  | negsuc n ↦ 1
]

unfoldable pub message : AttendanceEvent → Text
message e =
    let name = if is_empty e.user_name then utf8 "Пользователь" else e.user_name in
    let optional =
      λ (label value : Text). if is_empty value then [] else label ++ html_escape value in
    let controller =
      html_escape e.controller_name
      ++ (codes " (Node " ++ (int_text e.controller_node ++ codes ")")) in
    (if is_arrival e.event_type then utf8 "🟢 <b>ПРИХОД</b>" else utf8 "🔴 <b>УХОД</b>")
    ++ (codes "\n<b>"
        ++ (html_escape name
            ++ (codes "</b>"
                ++ (optional (utf8 "\nДолжность: ") e.position
                    ++ (optional (utf8 "\nОтдел: ") e.department
                        ++ (utf8 "\nВремя: <code>"
                            ++ (html_escape e.timestamp
                                ++ (codes "</code>"
                                    ++ (if is_empty e.controller_name
                                        then []
                                        else utf8 "\nКонтроллер: " ++ controller)))))))))

module _ {Tm : Type 0} (get_time : Text → Option Tm) (mktime : Tm → ℤ) where
  -- Passages of a backlog are not sent. The time of an event is none where it cannot be read, or -1.
  unfoldable pub is_old : Config → ℤ → AttendanceEvent → Bool
  unfolding max_age
  is_old c now e = elim (get_time e.timestamp) [
    | none ↦ false
    | some tm ↦
        let time = mktime tm in
        not (eq_ℤ time (negsuc 0))
        && not (leb_ℤ now time)
        && not (leb_ℤ (◌-ℤ◌ now time) (pos (max_age c * 60)))
  ]

  module _ {W : Type 0} (send : Text → W → Bool × W) where
    -- A turn of the loop with a notice.
    unfoldable pub notify : Config → ℤ → AttendanceEvent → W → Bool × W
    unfolding is_wanted is_old message
    notify c now e w =
        let sent = attempt (retries c) (send (message e)) w in
        if not (is_wanted c e) then (false, w) else if is_old c now e then (false, w) else sent

    -- The turns over a queue, each at its time; a notice that could not be sent is given up.
    unfoldable pub notify_all : Config → (W → ℤ) → List AttendanceEvent → W → W
    unfolding notify
    notify_all c time [] w = w
    notify_all c time (e ∷ es) w = notify_all c time es (notify c (time w) e w).1
