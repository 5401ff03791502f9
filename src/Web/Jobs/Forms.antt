-- ===== src/Web/Jobs/Forms.antt =====
-- src/web/WebServer.cpp: what the forms of `route` about jobs ask for, and what is refused.
use monk_skud_unex.Base.{
  ℕ, ◌+◌, ◌-◌, List, [], ◌∷◌, Bool, true, false, ◌||◌, not, Text, Option, none, some, ℤ, pos,
  within, ltb, if◌then◌else◌, is_empty, codes, bytes_eq,
}
use Prim.Native.String.{String}
use monk_skud_unex.Base.Map.{lookup, nat_eq}
use monk_skud_unex.Text.Number.{to_string}
use monk_skud_unex.Text.Int.{stoi, stoull}
use monk_skud_unex.Types.{User, new_user, Controller}
use monk_skud_unex.Users.Ops.{find_id}
use monk_skud_unex.Web.Request.{Form, field, is_set, int_or, parse_int_list}
use monk_skud_unex.Web.Site.{Problem, enabled_nodes, known_nodes}

abbrev pub value_of : String → Form → Text
value_of key f = field (codes key) f

-- The controllers that a form selects.
unfoldable pub selected_nodes : Form → List Controller → List ℕ
selected_nodes f cs =
    if is_set (codes "all_controllers") f
    then enabled_nodes cs
    else known_nodes cs (parse_int_list (value_of "controller_nodes" f))

abbrev is_known : Option Controller → Bool
is_known none = false
is_known (some c) = true

-- The users with the ids that are there.
unfoldable pub users_of : List User → List ℕ → List User
users_of users [] = []
users_of users (n ∷ ns) =
    let rest = users_of users ns in elim (find_id users (pos n)) [ none ↦ rest | some u ↦ u ∷ rest ]

unfoldable pub enabled_users : List User → List User
enabled_users [] = []
enabled_users (u ∷ us) = let rest = enabled_users us in if u.enabled then u ∷ rest else rest

-- The card that a full synchronisation writes.
unfoldable pub sync_card : User → Text
sync_card u = if not (is_empty u.card) then u.card else elim u.cards [ [] ↦ [] | c ∷ cs ↦ c ]

unfoldable pub owner_of : ℕ → List (ℕ × ℤ) → Option ℤ
owner_of address owners = lookup address owners

-- What forbids a full synchronisation: the first user without an address or a card, or with the address
-- of a user before.
unfoldable pub sync_problem : List (ℕ × ℤ) → List User → Option Problem
unfolding sync_card owner_of
sync_problem owners [] = none
sync_problem owners (u ∷ us) = elim (within 1023 u.controller_port) [
  | none ↦ some (Problem.sync_address u.id)
  | some address ↦ elim (is_empty (sync_card u)) [
    | true ↦ some (Problem.sync_no_card u.id)
    | false ↦ elim (owner_of address owners) [
      | some owner ↦ some (Problem.sync_duplicate u.controller_port owner u.id)
      | none ↦ sync_problem ((address, u.id) ∷ owners) us
    ]
  ]
]

-- The addresses of `read-users`, or what is wrong with them.
pub data Addresses : Type 0 where
  asked_for : List ℤ → Addresses
  wrong : Problem → Addresses

-- `for (a = from; a <= to; ++a)`.
unfoldable pub range : ℕ → ℕ → List ℤ
range from ℕ.zero = []
range from (ℕ.suc n) = pos from ∷ range (ℕ.suc from) n

unfoldable pub local_addresses : List User → List ℤ
local_addresses [] = []
local_addresses (u ∷ us) =
    let rest = local_addresses us in
    elim (within 1023 u.controller_port) [ none ↦ rest | some a ↦ pos a ∷ rest ]

abbrev address_range : Option ℕ → Option ℕ → Addresses
address_range (some from) (some to) =
    if ltb to from then wrong Problem.bad_range else asked_for (range from (to + 1 - from))
address_range _ _ = wrong Problem.bad_range

-- Both ends in one `try`: the second one is not read where the first one cannot be.
unfoldable pub range_of : Text → Text → Addresses
unfolding range
range_of from to = elim (stoi from) [
  | none ↦ address_range (some 0) (some 0)
  | some a ↦ address_range (within 1023 a) (within 1023 (int_or (pos 0) to))
]

unfoldable pub addresses_of : Form → List User → Addresses
unfolding local_addresses range_of
addresses_of f users =
    let mode = value_of "address_mode" f in
    if is_empty mode || bytes_eq mode (codes "local")
    then asked_for (local_addresses users)
    else if bytes_eq mode (codes "range")
    then range_of (value_of "range_from" f) (value_of "range_to" f)
    else wrong Problem.bad_address_mode

-- The numbers of a search, which one `try` reads.
pub record Search : Type 0 where
  pub series : ℤ
  pub number : ℤ
  pub first : ℤ
  pub last : ℤ
  pub block : ℤ

infixl 5 ◌>>=◌
abbrev ◌>>=◌ : {A B : Type 0} → Option A → (A → Option B) → Option B
none >>= f = none
some a >>= f = f a

unfoldable pub search_of : Form → Option Search
search_of f = do
  series ← stoi (value_of "card_series" f)
  number ← stoi (value_of "card_number" f)
  first ← stoi (value_of "start_address" f)
  last ← stoi (value_of "end_address" f)
  let size = value_of "block_size" f
  block ← if is_empty size then some (pos 64) else stoi size
  some (record { series = series; number = number; first = first; last = last; block = block })

-- The numbers within their bounds: series and number, first and last address, and size of a block.
pub data Checked : Type 0 where
  fine : ℕ → ℕ → ℕ → ℕ → ℕ → Checked
  bad : Problem → Checked

unfoldable pub check_search : Search → Checked
check_search q = elim (within 65535 q.series) [
  | none ↦ bad Problem.bad_card
  | some series ↦ elim (within 65535 q.number) [
    | none ↦ bad Problem.bad_card
    | some number ↦ elim (within 0xffff q.last) [
      | none ↦ bad Problem.bad_range
      | some last ↦ elim (within last q.first) [
        | none ↦ bad Problem.bad_range
        | some first ↦ elim (within 128 q.block) [
          | none ↦ bad Problem.bad_block
          | some block ↦
              if ltb block 16 then bad Problem.bad_block else fine series number first last block
        ]
      ]
    ]
  ]
]

-- The user that stands for a slot of a controller. A node or an address that cannot be read is 0: a
-- form with a node and no address means the slot 0.
unfoldable pub slot_user : ℕ → User
slot_user address = record new_user {
  id = pos address;
  controller_port = pos address;
  enabled = false;
  last_name = codes "Controller slot";
  first_name = to_string address;
}

unfoldable pub slot_of : Form → ℤ × ℤ
slot_of f = elim (stoi (value_of "controller_node" f)) [
  | none ↦ (pos 0, pos 0)
  | some node ↦ (node, int_or (pos 0) (value_of "address" f))
]

-- All enabled users where there is nothing against it, or the users that the form names.
unfoldable pub upload_users : Form → List User → List User × Option Problem
unfolding enabled_users sync_problem users_of
upload_users f users =
    if is_set (codes "all_users") f
    then (enabled_users users, sync_problem [] (enabled_users users))
    else (users_of users (parse_int_list (value_of "user_ids" f)), none)

-- The first number that cannot be read ends the reading.
unfoldable pub trace_range : Form → ℕ × ℕ
trace_range f =
    let after = value_of "after" f in
    let limit = value_of "limit" f in
    let limit_of : ℕ = elim (stoull limit) [ none ↦ 250 | some n ↦ n ] in
    if is_empty after
    then (0, limit_of)
    else elim (stoull after) [ none ↦ (0, 250) | some a ↦ (a, limit_of) ]
