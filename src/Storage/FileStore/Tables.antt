-- ===== src/Storage/FileStore/Tables.antt =====
-- src/storage/FileStore.cpp: a saved table is what the next start loads.
use monk_skud_unex.Base.{List, [], true, Text, All, ◌≡◌}
use monk_skud_unex.Base.Map.{IsMap, text_eq}
use monk_skud_unex.Types.{CardActivity, PersistedCardState}
use monk_skud_unex.Storage.Files.{FileSystem, Reliable, content}
use monk_skud_unex.Storage.Files.Replace.{replace_file-read}
use monk_skud_unex.Storage.Formats.{states_text, activities_text}
use monk_skud_unex.Storage.Formats.Tables.{
  IsPlainState, IsPlainActivity, parse_states-states_text, parse_activities-activities_text,
}
use monk_skud_unex.Storage.FileStore.{
  files, Disk, states_path, activities_path, save_card_states, load_card_states, save_activities,
  load_activities,
}

module _ {W : Type 0} (fs : FileSystem W) (laws : Reliable fs) (root : Text) where
  -- Presences that were saved, with plain and distinct keys and plain times, are the presences that are
  -- loaded: also where the first rename met an error.
  pub load_card_states-save_card_states :
      (t : List (Text × PersistedCardState)) (d : Disk W)
      → All IsPlainState t
      → IsMap [] t
      → (save_card_states fs files root t d).0 ≡ true
      → (load_card_states fs files root (save_card_states fs files root t d).1).0 ≡ t
  unfolding save_card_states load_card_states content
  load_card_states-save_card_states t d h m done =
      let p = states_path fs files root in
      rw (replace_file-read fs laws p (states_text t) d.world done) (parse_states-states_text t h m)

  -- Activities that were saved, with plain texts, are the activities that are loaded.
  pub load_activities-save_activities :
      (t : List CardActivity) (d : Disk W)
      → All IsPlainActivity t
      → (save_activities fs files root t d).0 ≡ true
      → (load_activities fs files root (save_activities fs files root t d).1).0 ≡ t
  unfolding save_activities load_activities content
  load_activities-save_activities t d h done =
      let p = activities_path fs files root in
      rw (replace_file-read fs laws p (activities_text t) d.world done)
        (parse_activities-activities_text t h)
