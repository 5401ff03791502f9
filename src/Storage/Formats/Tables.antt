-- ===== src/Storage/Formats/Tables.antt =====
-- src/storage/FileStore.cpp: the two tables are read back from the text they were written as.
use monk_skud_unex.Base.{
  List, [], ◌∷◌, ◌++◌, true, Text, All, ◌≡◌, refl, sym, ap, ◌∙◌, arith, map, append_assoc,
  append-nil, bytes_eq, codes, if◌then◌else◌,
}
use monk_skud_unex.Base.Map.{insert-fresh, IsMap, text_eq}
use monk_skud_unex.Text.{split}
use monk_skud_unex.Text.Number.{all_of}
use monk_skud_unex.Text.Int.{int_text}
use monk_skud_unex.Text.Int.RoundTrip.{IsInt, stoi-int_text}
use monk_skud_unex.Text.Csv.{is_separator, safe, terminated, body_rows}
use monk_skud_unex.Text.Csv.Rows.{
  is_plain, Plain, OneLine, is_plain-safe, safe-is_plain, split-joined, lacks-joined,
  lines-terminated, lacks,
}
use monk_skud_unex.Types.{PresenceState, absent, present, CardActivity, PersistedCardState}
use monk_skud_unex.Storage.Formats.{
  state_header, presence_text, state_fields, state_line, states_text, parse_states, activity_header,
  activity_fields, activity_line, activities_text, parse_activity, parse_activities, row_numbers,
}
use monk_skud_unex.Storage.Formats.RoundTrip.{is_plain-int_text}

state_fields-Plain : (p : Text × PersistedCardState) → All Plain (state_fields p)
unfolding state_fields is_plain all_of is_separator
state_fields-Plain (k, s) =
    elim s.state as (λ q. All Plain (safe k ∷ presence_text q ∷ safe s.last_read ∷ [])) [
      | present ↦ (is_plain-safe k, (refl, (is_plain-safe s.last_read, record {})))
      | absent ↦ (is_plain-safe k, (refl, (is_plain-safe s.last_read, record {})))
    ]

split-state_line : (p : Text × PersistedCardState) → split (state_line p) b';' ≡ state_fields p
unfolding state_line state_fields
split-state_line (k, s) =
    split-joined (safe k) (presence_text s.state) _ (state_fields-Plain (k, s))

-- A key and a time that are kept as they are.
abbrev pub IsPlainState : Text × PersistedCardState → Type 0
IsPlainState (k, s) = (is_plain k ≡ true) × (is_plain s.last_read ≡ true)

read_presence :
    (q : PresenceState)
    → (if bytes_eq (presence_text q) (codes "present") then present else absent) ≡ q
unfolding bytes_eq
read_presence present = refl
read_presence absent = refl

parse_states-fields :
    (before t : List (Text × PersistedCardState))
    → All IsPlainState t
    → IsMap before t
    → parse_states before (map state_fields t) ≡ before ++ t
unfolding parse_states state_fields
parse_states-fields before [] h m = sym (append-nil before)
parse_states-fields before ((k, s) ∷ t) h m =
    rw
      (
        safe-is_plain k h.0.0,
        safe-is_plain s.last_read h.0.1,
        read_presence s.state,
        insert-fresh k s before m.0,
      )
      (parse_states-fields (before ++ (k, s) ∷ []) t h.1 m.1 ∙ append_assoc before ((k, s) ∷ []) t)

map-split_state :
    (t : List (Text × PersistedCardState))
    → map (λ (l : Text). split l b';') (map state_line t) ≡ map state_fields t
map-split_state [] = refl
map-split_state (p ∷ t) =
    ap (λ (r : List (List Text)). split (state_line p) b';' ∷ r) (map-split_state t)
    ∙ ap (λ (c : List Text). c ∷ map state_fields t) (split-state_line p)

-- The rows of a table are its lines behind the header.
pub body_rows-terminated :
    (header : Text) (ls : List Text)
    → OneLine header
    → All OneLine ls
    → body_rows (terminated (header ∷ ls)) ≡ map (λ (l : Text). split l b';') ls
unfolding body_rows
body_rows-terminated header ls h hs = rw (lines-terminated (header ∷ ls) (h, hs)) refl

state_lines-OneLine : (t : List (Text × PersistedCardState)) → All OneLine (map state_line t)
unfolding state_line
state_lines-OneLine [] = record {}
state_lines-OneLine (p ∷ t) =
    (lacks-joined (state_fields p) (state_fields-Plain p), state_lines-OneLine t)

-- A table of presences with plain keys and times is read back as it is.
pub parse_states-states_text :
    (t : List (Text × PersistedCardState))
    → All IsPlainState t
    → IsMap [] t
    → parse_states [] (body_rows (states_text t)) ≡ t
unfolding states_text lacks all_of
parse_states-states_text t h m =
    rw
      (
        body_rows-terminated state_header (map state_line t) refl (state_lines-OneLine t),
        map-split_state t,
      )
      (parse_states-fields [] t h m)

-- The texts of an activity that the file keeps as they are.
pub record IsPlainActivity (a : CardActivity) : Type 0 where
  pub card : is_plain a.card ≡ true
  pub user_name : is_plain a.user_name ≡ true
  pub department : is_plain a.department ≡ true
  pub last_read : is_plain a.last_read ≡ true
  pub last_event : is_plain a.last_event ≡ true
  pub user_id : IsInt a.user_id
  pub controller_node : IsInt a.controller_node

activity_fields-Plain : (a : CardActivity) → All Plain (activity_fields a)
unfolding activity_fields
activity_fields-Plain a = (
  is_plain-safe a.card,
  (
    is_plain-int_text a.user_id,
    (
      is_plain-safe a.user_name,
      (
        is_plain-safe a.department,
        (
          is_plain-safe a.last_read,
          (is_plain-safe a.last_event, (is_plain-int_text a.controller_node, record {})),
        ),
      ),
    ),
  ),
)

split-activity_line : (a : CardActivity) → split (activity_line a) b';' ≡ activity_fields a
unfolding activity_line activity_fields
split-activity_line a = split-joined (safe a.card) (int_text a.user_id) _ (activity_fields-Plain a)

parse_activity-activity_fields :
    (a : CardActivity) → IsPlainActivity a → parse_activity (activity_fields a) ≡ a
unfolding parse_activity activity_fields row_numbers
parse_activity-activity_fields a h = ground (
  arith,
  stoi-int_text a.user_id h.user_id,
  stoi-int_text a.controller_node h.controller_node,
  safe-is_plain a.card h.card,
  safe-is_plain a.user_name h.user_name,
  safe-is_plain a.department h.department,
  safe-is_plain a.last_read h.last_read,
  safe-is_plain a.last_event h.last_event,
)

parse_activities-lines :
    (t : List CardActivity)
    → All IsPlainActivity t
    → parse_activities (map (λ (l : Text). split l b';') (map activity_line t)) ≡ t
unfolding parse_activities activity_fields
parse_activities-lines [] h = refl
parse_activities-lines (a ∷ t) h =
    rw (split-activity_line a, parse_activities-lines t h.1)
      (ap (λ (b : CardActivity). b ∷ t) (parse_activity-activity_fields a h.0))

activity_lines-OneLine : (t : List CardActivity) → All OneLine (map activity_line t)
unfolding activity_line
activity_lines-OneLine [] = record {}
activity_lines-OneLine (a ∷ t) =
    (lacks-joined (activity_fields a) (activity_fields-Plain a), activity_lines-OneLine t)

-- A table of activities with plain texts is read back as it is.
pub parse_activities-activities_text :
    (t : List CardActivity)
    → All IsPlainActivity t
    → parse_activities (body_rows (activities_text t)) ≡ t
unfolding activities_text lacks all_of
parse_activities-activities_text t h =
    rw (body_rows-terminated activity_header (map activity_line t) refl (activity_lines-OneLine t))
      (parse_activities-lines t h)
