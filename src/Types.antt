-- ===== src/Types.antt =====
-- include/skud/Types.h: the records that the components exchange. Texts of messages, which are made
-- for people to read and which no code reads back, are left out of every record.
pub mod Jobs
use monk_skud_unex.Base.{ℕ, List, Bool, true, false, Text, Bytes, ℤ, pos, [], codes}

pub data PresenceState : Type 0 where
  absent present : PresenceState

pub data AttendanceEventType : Type 0 where
  arrival departure accidental unknown_card raw_controller_event : AttendanceEventType

pub record User : Type 0 where
  pub id : ℤ
  pub enabled : Bool
  pub last_name : Text
  pub first_name : Text
  pub middle_name : Text
  pub department : Text
  pub position : Text
  pub card : Text
  pub cards : List Text
  pub card_series : Text
  pub card_number : Text
  pub pin_code : Text
  pub access_mode : Text
  pub controller_port : ℤ
  pub valid_from : Text
  pub valid_until : Text
  pub telegram_arrival : Bool
  pub telegram_departure : Bool

-- `User{}`.
abbrev pub new_user : User
new_user = record {
  id = pos 0;
  enabled = true;
  last_name = [];
  first_name = [];
  middle_name = [];
  department = [];
  position = [];
  card = [];
  cards = [];
  card_series = [];
  card_number = [];
  pin_code = [];
  access_mode = codes "card";
  controller_port = pos 0;
  valid_from = [];
  valid_until = [];
  telegram_arrival = true;
  telegram_departure = true;
}

pub record Controller : Type 0 where
  pub node : ℕ
  pub reported_node : ℤ
  pub name : Text
  pub model : Text
  pub enabled : Bool
  pub online : Bool
  pub last_seen : Text
  pub last_raw_hex : Text

pub record PersistedCardState : Type 0 where
  pub state : PresenceState
  pub last_read : Text

pub record CardActivity : Type 0 where
  pub card : Text
  pub user_id : ℤ
  pub user_name : Text
  pub department : Text
  pub last_read : Text
  pub last_event : Text
  pub controller_node : ℤ

pub record ControllerCardRecord : Type 0 where
  pub card : Text
  pub controller_node : ℕ
  pub controller_name : Text
  pub first_seen : Text
  pub last_seen : Text
  pub read_count : ℕ
  pub last_raw_hex : Text

pub record DailyAttendance : Type 0 where
  pub user_id : ℤ
  pub user_name : Text
  pub position : Text
  pub department : Text
  pub card : Text
  pub arrival_time : Text
  pub departure_time : Text
  pub presence : PresenceState
  pub last_event_time : Text

pub record AttendanceEvent : Type 0 where
  pub timestamp : Text
  pub event_type : AttendanceEventType
  pub card : Text
  pub user_id : ℤ
  pub user_name : Text
  pub position : Text
  pub department : Text
  pub telegram_arrival : Bool
  pub telegram_departure : Bool
  pub controller_node : ℤ
  pub controller_name : Text
  pub raw_hex : Text

-- `user_address` and `event_code` are -1 until they are known.
pub record RawUnexEvent : Type 0 where
  pub node : ℕ
  pub frame : Bytes
  pub raw_hex : Text
  pub card : Text
  pub user_address : ℤ
  pub event_code : ℤ
  pub event_timestamp : Text
