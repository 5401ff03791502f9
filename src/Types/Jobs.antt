-- ===== src/Types/Jobs.antt =====
-- include/skud/Types.h: the jobs of the controller worker, with their results and counters.
use monk_skud_unex.Base.{ℕ, List, Bool, Text, ℤ}

pub data JobState : Type 0 where
  queued running completed blocked : JobState

-- The status texts of uploads, deletions and actions; each constructor is the text of its name.
pub data Status : Type 0 where
  no_status skipped invalid_user precheck_failed write_timeout write_error write_nack : Status
  verify_failed written_verified pass_any_read_failed pass_any_write_failed : Status
  pass_any_rewritten_disabled pass_any_disabled clear_timeout clear_error clear_nack : Status
  cleared_all clear_slot_invalid clear_slot_timeout clear_slot_error clear_slot_nack : Status
  clear_slot_verify_failed slot_cleared_verified unsupported_record already_invalid : Status
  delete_timeout delete_error delete_nack invalidated_verified invalid_node id_mismatch : Status
  unchanged ack_id_mismatch node_id_changed node_conflict local_save_failed : Status
  communication_error fifo_empty storage_error delete_failed blocked_protocol : Status

-- `match` … `error` of a user read.
pub data ReadStatus : Type 0 where
  same diff missing unknown unverified empty error : ReadStatus

pub record ControllerUserUploadResult : Type 0 where
  pub user_id : ℤ
  pub controller_node : ℕ
  pub status : Status

pub record ControllerUserUploadJob : Type 0 where
  pub id : ℕ
  pub created_at : Text
  pub state : JobState
  pub total : ℕ
  pub completed_count : ℕ
  pub success : ℕ
  pub failed : ℕ
  pub skipped_count : ℕ
  pub full_sync : Bool
  pub results : List ControllerUserUploadResult

pub data Action : Type 0 where
  disable_pass_any set_node_id : Action

pub record ControllerActionJob : Type 0 where
  pub id : ℕ
  pub created_at : Text
  pub state : JobState
  pub action : Action
  pub controller_node : ℕ
  pub new_controller_node : ℕ
  pub ok : Bool
  pub status : Status

pub record ControllerAttendanceReadJob : Type 0 where
  pub id : ℕ
  pub created_at : Text
  pub state : JobState
  pub controller_node : ℕ
  pub ok : Bool
  pub status : Status
  pub read : ℕ
  pub stored : ℕ
  pub access_events : ℕ
  pub raw_events : ℕ
  pub duplicates : ℕ
  pub failed : ℕ
  pub first_event_time : Text
  pub last_event_time : Text

pub record ControllerUserDeleteResult : Type 0 where
  pub user_id : ℤ
  pub controller_node : ℕ
  pub status : Status

pub record ControllerUserDeleteJob : Type 0 where
  pub id : ℕ
  pub created_at : Text
  pub state : JobState
  pub delete_from_system : Bool
  pub total : ℕ
  pub completed_count : ℕ
  pub success : ℕ
  pub failed : ℕ
  pub local_deleted : ℕ
  pub local_retained : ℕ
  pub results : List ControllerUserDeleteResult

pub record ControllerUserReadResult : Type 0 where
  pub controller_node : ℕ
  pub address : ℤ
  pub local_user_id : ℤ
  pub local_user_name : Text
  pub controller_card : Text
  pub controller_enabled : Bool
  pub pin_set : Bool
  pub access_mode : Text
  pub card_known : Bool
  pub details_known : Bool
  pub raw_record_hex : Text
  pub status : ReadStatus

pub record ControllerUserReadJob : Type 0 where
  pub id : ℕ
  pub created_at : Text
  pub state : JobState
  pub total : ℕ
  pub completed_count : ℕ
  pub matches : ℕ
  pub differences : ℕ
  pub missing_count : ℕ
  pub unknown_count : ℕ
  pub unverified_count : ℕ
  pub empty_count : ℕ
  pub failed : ℕ
  pub results : List ControllerUserReadResult

pub record ControllerEepromSearchMatch : Type 0 where
  pub controller_node : ℕ
  pub eeprom_address : ℕ
  pub pattern : Text
  pub exact : Bool
  pub matched_hex : Text
  pub context_hex : Text

pub record ControllerEepromSearchError : Type 0 where
  pub controller_node : ℕ
  pub eeprom_address : ℕ

-- What a note about the 87H record of a user says: no reply, an empty record, one of another size, or
-- one of 8 bytes that is then looked for.
pub data CompactProbe : Type 0 where
  probe_error : ℕ → ℕ → CompactProbe
  probe_empty : ℕ → ℕ → Text → CompactProbe
  probe_skipped : ℕ → ℕ → ℕ → Text → CompactProbe
  probe_compact : ℕ → ℕ → Text → CompactProbe

pub record ControllerEepromSearchJob : Type 0 where
  pub id : ℕ
  pub created_at : Text
  pub state : JobState
  pub card_series : ℕ
  pub card_number : ℕ
  pub compact_user_addresses : List ℕ
  pub compact_probes : List CompactProbe
  pub start_address : ℕ
  pub end_address : ℕ
  pub block_size : ℕ
  pub total : ℤ
  pub completed_count : ℕ
  pub failed : ℕ
  pub truncated : Bool
  pub matches : List ControllerEepromSearchMatch
  pub errors : List ControllerEepromSearchError
