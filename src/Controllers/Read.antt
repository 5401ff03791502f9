-- ===== src/Controllers/Read.antt =====
-- src/controllers/ControllerManager.cpp: `queueUserRead` and `processUserReadBatch`, the comparison of the
-- slots of the controllers with the local users.
use monk_skud_unex.Base.{
  ℕ, zero, suc, ◌*◌, ◌%◌, List, [], ◌∷◌, ◌++◌, Bool, true, false, ◌||◌, not, Text, none, some, ℤ,
  pos, negsuc, eq_ℤ, leb_ℤ, leb, ltb, ◌==◌, if◌then◌else◌, is_empty, length, get_or, find_if,
}
use monk_skud_unex.Base.Map.{lookup, adjust, insert, nat_eq}
use monk_skud_unex.Types.{User}
use monk_skud_unex.Types.Jobs.{ControllerUserReadJob, JobState}
use monk_skud_unex.Protocol.Link.{Port, Link}
use monk_skud_unex.Protocol.Slot.{read_user}
use monk_skud_unex.Controllers.{keep_newest}
use monk_skud_unex.Controllers.Verdict.{read_result, count_slot}

pub record PendingUserRead : Type 0 where
  pub id : ℕ
  pub local_users : List User
  pub controller_nodes : List ℕ
  pub addresses : List ℕ
  pub include_empty : Bool
  pub controller_index : ℕ
  pub address_index : ℕ

pub record ReadQueue : Type 0 where
  pub pending : List PendingUserRead
  pub jobs : List (ℕ × ControllerUserReadJob)
  pub next_id : ℕ

-- `std::sort` of `int`s.
unfoldable insert_sorted : ℤ → List ℤ → List ℤ
insert_sorted a [] = a ∷ []
insert_sorted a (b ∷ bs) =
    let rest = insert_sorted a bs in if leb_ℤ a b then a ∷ b ∷ bs else b ∷ rest

unfoldable sort : List ℤ → List ℤ
unfolding insert_sorted
sort [] = []
sort (a ∷ as') = insert_sorted a (sort as')

-- Without the addresses `a<=0||a>16383`, which leaves natural numbers.
valid_addresses : List ℤ → List ℕ
valid_addresses [] = []
valid_addresses (negsuc n ∷ rest) = valid_addresses rest
valid_addresses (pos n ∷ rest) =
    let others = valid_addresses rest in if leb n 0 || ltb 16383 n then others else n ∷ others

-- `std::unique`: each run of equal neighbours becomes one.
unique_from : ℕ → List ℕ → List ℕ
unique_from last [] = []
unique_from last (a ∷ rest) =
    let others = unique_from a rest in if a == last then others else a ∷ others

unique : List ℕ → List ℕ
unfolding unique_from
unique [] = []
unique (a ∷ rest) = a ∷ unique_from a rest

unfoldable pub read_addresses : List ℤ → List ℕ
unfolding sort valid_addresses unique
read_addresses addresses = unique (valid_addresses (sort addresses))

abbrev new_read_job : ℕ → Text → JobState → ℕ → ControllerUserReadJob
new_read_job id now state total = record {
  id = id;
  created_at = now;
  state = state;
  total = total;
  completed_count = 0;
  matches = 0;
  differences = 0;
  missing_count = 0;
  unknown_count = 0;
  unverified_count = 0;
  empty_count = 0;
  failed = 0;
  results = [];
}

unfoldable pub queue_user_read :
    Text → List User → List ℕ → List ℤ → Bool → ReadQueue → ℕ × ReadQueue
queue_user_read now users nodes wanted include_empty q =
    let addresses = read_addresses wanted in
    let done = is_empty nodes || is_empty addresses in
    let state = if done then JobState.completed else JobState.queued in
    let job = new_read_job q.next_id now state (length nodes * length addresses) in
    let request : PendingUserRead = record {
      id = q.next_id;
      local_users = users;
      controller_nodes = nodes;
      addresses = addresses;
      include_empty = include_empty;
      controller_index = 0;
      address_index = 0;
    } in
    (
      q.next_id,
      record {
        pending = if done then q.pending else q.pending ++ request ∷ [];
        jobs = keep_newest 20 (insert q.next_id job q.jobs);
        next_id = suc q.next_id;
      },
    )

-- The next task of a request.
unfoldable pub advance : PendingUserRead → PendingUserRead
advance p =
    let next = suc p.address_index in
    if leb (length p.addresses) next
    then record p { address_index = 0; controller_index = suc p.controller_index }
    else record p { address_index = next }

unfoldable pub exhausted : PendingUserRead → Bool
exhausted p = leb (length p.controller_nodes) p.controller_index

unfoldable pop_request : ℕ → List PendingUserRead → List PendingUserRead
pop_request id [] = []
pop_request id (p ∷ rest) = if p.id == id then rest else p ∷ rest

abbrev set_state : JobState → ControllerUserReadJob → ControllerUserReadJob
set_state state job = record job { state = state }

pub record Run (W : Type 0) : Type 0 where
  pub link : Link W
  pub queue : ReadQueue

module _ {W : Type 0} (io : Port W) (running : W → Bool) (user_word : Text) where
  -- One slot of the request at the front: the flag is `false` behind the last one.
  unfoldable pub read_task : PendingUserRead → List PendingUserRead → Run W → Bool × Run W
  unfolding pop_request
  read_task p rest run =
      let node = get_or p.controller_nodes p.controller_index 0 in
      let address = get_or p.addresses p.address_index 0 in
      let local = find_if (λ (u : User). eq_ℤ u.controller_port (pos address)) p.local_users in
      let p' = advance p in
      let last = exhausted p' in
      let (got, link) = read_user io (node % 256) (pos address) run.link in
      let r = read_result user_word node address local got in
      let queue = run.queue in
      (
        not last,
        record {
          link = link;
          queue = record queue {
            pending = if last then pop_request p.id (p' ∷ rest) else p' ∷ rest;
            jobs = adjust p.id (count_slot p.include_empty last r) queue.jobs;
          };
        },
      )

  unfoldable pub read_front : PendingUserRead → List PendingUserRead → Run W → Bool × Run W
  read_front p rest run =
      let queue = run.queue in
      let started = record queue { jobs = adjust p.id (set_state JobState.running) queue.jobs } in
      let done = record queue {
        pending = rest;
        jobs = adjust p.id (set_state JobState.completed) queue.jobs;
      } in
      elim (lookup p.id queue.jobs) [
        | none ↦ (true, record run { queue = record queue { pending = rest } })
        | some job ↦
            if exhausted p
            then (true, record run { queue = done })
            else read_task p rest (record run { queue = started })
      ]

  -- At most `batch` slots in one turn of the worker.
  unfoldable pub read_batch : ℕ → Run W → Run W
  read_batch zero run = run
  read_batch (suc batch) run = elim (running run.link.port) [
    | false ↦ run
    | true ↦ elim run.queue.pending [
      | [] ↦ run
      | p ∷ rest ↦
          let (going, after) = read_front p rest run in
          elim going [ true ↦ read_batch batch after | false ↦ after ]
    ]
  ]

  unfoldable pub process_user_read_batch : Run W → Run W
  unfolding read_batch
  process_user_read_batch run = read_batch 6 run
