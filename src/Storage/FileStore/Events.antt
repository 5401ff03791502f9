-- ===== src/Storage/FileStore/Events.antt =====
-- src/storage/FileStore.cpp: the files of events behind the interface that the attendance uses.
use monk_skud_unex.Base.{
  ℕ, ◌^◌, ◌<◌, List, [], ◌∷◌, ◌++◌, Bool, true, false, ◌||◌, Text, All, pos, ◌≡◌, refl, sym, ap,
  ◌∙◌, arith, map, any, is_empty, bytes_eq, bytes_eq_iff, codes, Bool-cases, inl, inr, append_assoc,
}
use monk_skud_unex.Text.{split}
use monk_skud_unex.Text.Csv.{joined, terminated, lines, lines_loop, body_rows}
use monk_skud_unex.Text.Csv.Rows.{
  is_plain, OneLine, Closed, lines-terminated, body_rows-append, lacks,
}
use monk_skud_unex.Types.{AttendanceEvent, CardActivity, PersistedCardState}
use monk_skud_unex.Attendance.Redelivery.{Keeps}
use monk_skud_unex.Storage.Files.{FileSystem, Reliable, content, temporary, is_some}
use monk_skud_unex.Storage.Files.Replace.{replace_file-elsewhere}
use monk_skud_unex.Storage.Formats.{
  event_header, event_lines, event_fields, event_date, is_event_of, states_text, activities_text,
}
use monk_skud_unex.Storage.Formats.RoundTrip.{
  event_fields-OneLine, split-event_fields, is_event_of-event_fields,
}
use monk_skud_unex.Storage.FileStore.{
  files, Disk, events_path, states_path, activities_path, append_file, append_event, has_in_file,
  has_controller_event, save_card_states, save_activities, file_store,
}

any-append :
    (p : List Text → Bool) (xs ys : List (List Text)) → any p (xs ++ ys) ≡ (any p xs || any p ys)
any-append p [] ys = refl
any-append p (x ∷ xs) ys = ground (arith, any-append p xs ys)

abbrev fields : Text → List Text
fields l = split l b';'

event_lines-OneLine : (exists : Bool) (e : AttendanceEvent) → All OneLine (event_lines exists e)
unfolding event_lines lacks monk_skud_unex.Text.Number.all_of
event_lines-OneLine true e = (event_fields-OneLine e, record {})
event_lines-OneLine false e = (refl, (event_fields-OneLine e, record {}))

-- The rows of a file behind an event that was added to it: closed where it was there before.
event_found :
    (p : List Text → Bool) (exists : Bool) (old : Text) (e : AttendanceEvent)
    → (exists ≡ true → Closed old)
    → (exists ≡ false → old ≡ [])
    → p (event_fields e) ≡ true
    → any p (body_rows (old ++ terminated (event_lines exists e))) ≡ true
unfolding body_rows event_lines
event_found p true old e closed fresh h =
    rw
      (
        body_rows-append old (terminated (event_lines true e)) (closed refl),
        lines-terminated (event_lines true e) (event_lines-OneLine true e),
        event_lines,
        any-append p (body_rows old) (fields (joined (event_fields e)) ∷ []),
        split-event_fields e,
        h,
      )
      (ground arith)
event_found p false old e closed fresh h =
    rw
      (
        fresh refl,
        body_rows,
        lines-terminated (event_lines false e) (event_lines-OneLine false e),
        event_lines,
        split-event_fields e,
        h,
      )
      refl

event_lines-Closed :
    (exists : Bool) (old : Text) (e : AttendanceEvent)
    → Closed (old ++ terminated (event_lines exists e))
unfolding terminated event_lines
event_lines-Closed true old e =
    let row = joined (event_fields e) in (old ++ row, sym (append_assoc old row (10 ∷ [])))
event_lines-Closed false old e =
    let row = joined (event_fields e) in
    let two = event_header ++ 10 ∷ row in
    (
      old ++ two,
      ap (λ (t : Text). old ++ t) (sym (append_assoc event_header (10 ∷ row) (10 ∷ [])))
          ∙ sym (append_assoc old two (10 ∷ [])),
    )

-- The rows that a file had are rows of it behind an event that was added.
row_kept :
    (p : List Text → Bool) (exists : Bool) (old : Text) (e : AttendanceEvent)
    → (exists ≡ true → Closed old)
    → (exists ≡ false → old ≡ [])
    → any p (body_rows old) ≡ true
    → any p (body_rows (old ++ terminated (event_lines exists e))) ≡ true
row_kept p true old e closed fresh h =
    rw
      (
        body_rows-append old (terminated (event_lines true e)) (closed refl),
        any-append p (body_rows old) (map fields (lines (terminated (event_lines true e)))),
        h,
      )
      refl
row_kept p false old e closed fresh h =
    absurd (unfold body_rows lines lines_loop in (cc (fresh refl, h)))

-- Paths with the same root are told apart behind it.
bytes_eq-root : (r s t : Text) → bytes_eq (r ++ s) (r ++ t) ≡ bytes_eq s t
unfolding bytes_eq
bytes_eq-root [] s t = refl
bytes_eq-root (c ∷ r) s t = ground (arith, bytes_eq-root r s t)

abbrev events_tail : Text → Text
events_tail date = codes "/data/events/" ++ (date ++ codes ".csv")

states_apart :
    (root date : Text)
    → (bytes_eq (root ++ codes "/data/card_state.csv") (root ++ events_tail date) ≡ false)
      × (bytes_eq (temporary (root ++ codes "/data/card_state.csv")) (root ++ events_tail date)
          ≡ false)
unfolding bytes_eq
states_apart root date =
    let name = codes "/data/card_state.csv" in
    (
      bytes_eq-root root name (events_tail date) ∙ refl,
      rw (append_assoc root name (codes ".tmp"))
          (bytes_eq-root root (name ++ codes ".tmp") (events_tail date) ∙ refl),
    )

activities_apart :
    (root date : Text)
    → (bytes_eq (root ++ codes "/data/active_cards.csv") (root ++ events_tail date) ≡ false)
      × (bytes_eq (temporary (root ++ codes "/data/active_cards.csv")) (root ++ events_tail date)
          ≡ false)
unfolding bytes_eq
activities_apart root date =
    let name = codes "/data/active_cards.csv" in
    (
      bytes_eq-root root name (events_tail date) ∙ refl,
      rw (append_assoc root name (codes ".tmp"))
          (bytes_eq-root root (name ++ codes ".tmp") (events_tail date) ∙ refl),
    )

module _ {W : Type 0} (fs : FileSystem W) (laws : Reliable fs) (root : Text) where
  -- Every file of events that is there ends with an end of line.
  abbrev pub IsSoundDisk : Disk W → Type 0
  IsSoundDisk d =
      (date : Text)
      → fs.exists (events_path fs files root date) d.world ≡ true
      → Closed (content (fs.read (events_path fs files root date) d.world))

  -- A frame that `safe` does not change, from a node that fits an `int`.
  abbrev pub IsStorable : ℕ → Text → Text → Type 0
  IsStorable node raw ts = (node < 2 ^ 31) × (is_empty raw ≡ false) × (is_plain raw ≡ true)

  fresh_file : (p : Text) (w : W) → fs.exists p w ≡ false → content (fs.read p w) ≡ []
  unfolding content
  fresh_file p w h = ground (arith, laws.exists_read p w)

  append_file-content :
      (p : Text) (e : AttendanceEvent) (w : W)
      → (append_file fs files root p e w).0 ≡ true
      → content (fs.read p (append_file fs files root p e w).1)
        ≡ content (fs.read p w) ++ terminated (event_lines (fs.exists p w) e)
  unfolding append_file content
  append_file-content p e w h = elim (Bool-cases (fs.open_append p w).0) [
    | inr bad ↦ absurd (ground arith)
    | inl ok ↦
        rw
          (
            ok,
            append_file,
            laws.written p (terminated (event_lines (fs.exists p w) e)) (fs.open_append p w).1,
            laws.appended p w ok,
          )
          refl
  ]

  has_in_file-append_file :
      (p : Text) (e : AttendanceEvent) (node : ℕ) (w : W)
      → (fs.exists p w ≡ true → Closed (content (fs.read p w)))
      → IsStorable node e.raw_hex e.timestamp
      → e.controller_node ≡ pos node
      → (append_file fs files root p e w).0 ≡ true
      → has_in_file fs files root node e.raw_hex p (append_file fs files root p e w).1 ≡ true
  unfolding has_in_file content
  has_in_file-append_file p e node w closed kept hn h = rw (append_file-content p e w h) (
      event_found (is_event_of node e.raw_hex) (fs.exists p w) (content (fs.read p w)) e closed
        (fresh_file p w) (is_event_of-event_fields e node hn kept.0 kept.2))

  -- What holds of the file of a day, carried to a world where the file is the same.
  sound_at :
      (p : Text) (w w' : W)
      → fs.read p w' ≡ fs.read p w
      → (fs.exists p w ≡ true → Closed (content (fs.read p w)))
      → fs.exists p w' ≡ true
      → Closed (content (fs.read p w'))
  sound_at p w w' same sound h =
      rw same
        (sound (laws.exists_read p w ∙ sym (ap is_some same) ∙ sym (laws.exists_read p w') ∙ h))

  append_file-elsewhere :
      (p q : Text) (e : AttendanceEvent) (w : W)
      → bytes_eq p q ≡ false
      → fs.read q (append_file fs files root p e w).1 ≡ fs.read q w
  unfolding append_file
  append_file-elsewhere p q e w h = ground (
    arith,
    laws.appended_elsewhere p q w h,
    laws.written_elsewhere p q (terminated (event_lines (fs.exists p w) e)) (fs.open_append p w).1
        h,
  )

  append_file-refused :
      (p : Text) (e : AttendanceEvent) (w : W)
      → (append_file fs files root p e w).0 ≡ false
      → fs.read p (append_file fs files root p e w).1 ≡ fs.read p w
  unfolding append_file
  append_file-refused p e w h = ground (arith, laws.append_refused p w)

  append_file_sound :
      (p q : Text) (e : AttendanceEvent) (w : W)
      → (fs.exists q w ≡ true → Closed (content (fs.read q w)))
      → fs.exists q (append_file fs files root p e w).1 ≡ true
      → Closed (content (fs.read q (append_file fs files root p e w).1))
  append_file_sound p q e w sound =
      let r = append_file fs files root p e w in
      elim (Bool-cases (bytes_eq p q)) [
        | inr apart ↦ sound_at q w r.1 (append_file-elsewhere p q e w apart) sound
        | inl same ↦
            let e1 : p ≡ q = (bytes_eq_iff p q).0 same in
            rw (sym e1) (elim (Bool-cases r.0) [
              | inr bad ↦ sound_at p w r.1 (append_file-refused p e w bad) (rw e1 sound)
              | inl done ↦ λ _.
                  rw (append_file-content p e w done)
                    (event_lines-Closed (fs.exists p w) (content (fs.read p w)) e)
            ])
      ]

  has_in_file-kept :
      (p q : Text) (e : AttendanceEvent) (node : ℕ) (raw : Text) (w : W)
      → (fs.exists q w ≡ true → Closed (content (fs.read q w)))
      → has_in_file fs files root node raw q w ≡ true
      → has_in_file fs files root node raw q (append_file fs files root p e w).1 ≡ true
  unfolding has_in_file
  has_in_file-kept p q e node raw w sound h =
      let r = append_file fs files root p e w in
      elim (Bool-cases (bytes_eq p q)) [
        | inr apart ↦ rw (append_file-elsewhere p q e w apart) h
        | inl same ↦
            let e1 : p ≡ q = (bytes_eq_iff p q).0 same in
            elim (Bool-cases r.0) [
              | inr bad ↦ rw (sym e1, append_file-refused p e w bad, e1) h
              | inl done ↦
                  rw (sym e1, append_file-content p e w done)
                    (row_kept (is_event_of node raw) (fs.exists p w) (content (fs.read p w)) e
                      (rw e1 sound) (fresh_file p w) (rw e1 h))
            ]
      ]

  states-elsewhere :
      (date : Text) (t : List (Text × PersistedCardState)) (d : Disk W)
      → fs.read (events_path fs files root date) (save_card_states fs files root t d).1.world
        ≡ fs.read (events_path fs files root date) d.world
  unfolding save_card_states
  states-elsewhere date t d =
      replace_file-elsewhere fs laws (states_path fs files root) (states_text t)
        (events_path fs files root date) d.world (states_apart root date).0
        (states_apart root date).1

  activities-elsewhere :
      (date : Text) (t : List CardActivity) (d : Disk W)
      → fs.read (events_path fs files root date) (save_activities fs files root t d).1.world
        ≡ fs.read (events_path fs files root date) d.world
  unfolding save_activities
  activities-elsewhere date t d =
      replace_file-elsewhere fs laws (activities_path fs files root) (activities_text t)
        (events_path fs files root date) d.world (activities_apart root date).0
        (activities_apart root date).1

  -- On files that a reliable file system holds, where every file of events ends with an end of line, the
  -- store gives what the attendance relies on: an appended event with a frame that is kept as it is is found
  -- again on the same day, later events and saving the two tables lose no event, and the files stay so.
  pub file_store-Keeps :
      (today : Text) → Keeps (file_store fs files root today) IsSoundDisk IsStorable
  unfolding append_event has_controller_event has_in_file content
  file_store-Keeps today = record {
    appended = λ e node d sound kept hn h. rw kept.1 (
        has_in_file-append_file (events_path fs files root (event_date today e.timestamp)) e node
          d.world (sound (event_date today e.timestamp)) kept hn h);
    later = λ e node raw ts d sound h. ground (
      arith,
      h,
      has_in_file-kept (events_path fs files root (event_date today e.timestamp))
          (events_path fs files root (event_date today ts)) e node raw d.world
          (sound (event_date today ts)),
    );
    states = λ t node raw ts d h. ground (arith, h, states-elsewhere (event_date today ts) t d);
    activities =
        λ t node raw ts d h. ground (arith, h, activities-elsewhere (event_date today ts) t d);
    append_sound = λ e d sound date.
        append_file_sound (events_path fs files root (event_date today e.timestamp))
          (events_path fs files root date) e d.world (sound date);
    states_sound = λ t d sound date.
        sound_at (events_path fs files root date) d.world
          (save_card_states fs files root t d).1.world (states-elsewhere date t d) (sound date);
    activities_sound = λ t d sound date.
        sound_at (events_path fs files root date) d.world
          (save_activities fs files root t d).1.world (activities-elsewhere date t d) (sound date);
  }
