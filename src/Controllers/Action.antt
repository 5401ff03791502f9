-- ===== src/Controllers/Action.antt =====
-- src/controllers/ControllerManager.cpp: `queueDisablePassAnyCards`, `queueSetNodeId` and
-- `processOneControllerAction`.
use monk_skud_unex.Base.{
  ℕ, suc, ◌%◌, List, [], ◌∷◌, ◌++◌, Bool, true, false, ◌&&◌, ◌||◌, not, Text, pos, ltb, ◌==◌,
  if◌then◌else◌, any,
}
use monk_skud_unex.Base.Map.{adjust, nat_eq}
use monk_skud_unex.Types.{Controller}
use monk_skud_unex.Types.Jobs.{
  ControllerActionJob, Action, disable_pass_any, set_node_id, JobState, Status,
}
use monk_skud_unex.Protocol.Link.{Port, Link}
use monk_skud_unex.Protocol.Eeprom.{disable_pass_any_cards}
use monk_skud_unex.Protocol.NodeId
use monk_skud_unex.Controllers.{add_job}

pub record PendingControllerAction : Type 0 where
  pub id : ℕ
  pub action : Action
  pub controller_node : ℕ
  pub new_controller_node : ℕ

pub record ActionQueue : Type 0 where
  pub pending : List PendingControllerAction
  pub jobs : List (ℕ × ControllerActionJob)
  pub next_id : ℕ

queue_action : Text → Action → ℕ → ℕ → ActionQueue → ℕ × ActionQueue
queue_action now action node new q = (
  q.next_id,
  record {
    pending = q.pending ++ request ∷ [];
    jobs = add_job 20 q.next_id job q.jobs;
    next_id = suc q.next_id;
  },
)
  where
    request : PendingControllerAction
    request = record {
      id = q.next_id;
      action = action;
      controller_node = node;
      new_controller_node = new;
    }

    job : ControllerActionJob
    job = record {
      id = q.next_id;
      created_at = now;
      state = JobState.queued;
      action = action;
      controller_node = node;
      new_controller_node = new;
      ok = false;
      status = Status.no_status;
    }

unfoldable pub queue_disable_pass_any_cards : Text → ℕ → ActionQueue → ℕ × ActionQueue
unfolding queue_action
queue_disable_pass_any_cards now node q = queue_action now disable_pass_any node 0 q

unfoldable pub queue_set_node_id : Text → ℕ → ℕ → ActionQueue → ℕ × ActionQueue
unfolding queue_action
queue_set_node_id now node new q = queue_action now set_node_id node new q

-- Another controller has the new node.
unfoldable pub has_conflict : PendingControllerAction → List Controller → Bool
has_conflict p controllers =
    any (λ (c : Controller). c.node == p.new_controller_node && not (c.node == p.controller_node))
      controllers

-- The first controller with the old node gets the new one.
unfoldable pub renumber : ℕ → ℕ → Text → List Controller → List Controller
renumber old new now [] = []
renumber old new now (c ∷ cs) =
    let rest = renumber old new now cs in
    if c.node == old
    then record c { node = new; reported_node = pos new; online = true; last_seen = now } ∷ cs
    else c ∷ rest

-- `C` is the world of the controller store.
pub record Registry (W C : Type 0) : Type 0 where
  pub link : Link W
  pub controllers : List Controller
  pub world : C
  pub refresh_requested : Bool

abbrev Outcome : Type 0
Outcome = Bool × Status

module _ {W C : Type 0} (io : Port W) (save : List Controller → C → Bool × C) where
  -- What follows a confirmed change of the node: the local list, its save, and a new scan.
  unfoldable pub store_node :
      PendingControllerAction → Text → Status → Registry W C → Outcome × Registry W C
  store_node p now status r =
      let controllers = renumber p.controller_node p.new_controller_node now r.controllers in
      let saved = save controllers r.world in
      let after = record r { controllers = controllers; world = saved.1 } in
      if saved.0
      then ((true, status), record after { refresh_requested = true })
      else ((false, Status.local_save_failed), after)

  unfoldable pub run_set_node_id :
      PendingControllerAction → Text → Registry W C → Outcome × Registry W C
  run_set_node_id p now r =
      let change =
        NodeId.set_node_id io (p.controller_node % 256) (p.new_controller_node % 256) r.link in
      let after = record r { link = change.1 } in
      if ltb p.new_controller_node 1 || ltb 254 p.new_controller_node
      then ((false, Status.invalid_node), r)
      else if has_conflict p r.controllers
      then ((false, Status.node_conflict), r)
      else if change.0.ok
      then store_node p now change.0.status after
      else ((false, change.0.status), after)

  unfoldable pub run_action :
      PendingControllerAction → Action → Text → Registry W C → Outcome × Registry W C
  run_action p set_node_id now r = run_set_node_id p now r
  run_action p disable_pass_any now r =
      let (out, link) = disable_pass_any_cards io (p.controller_node % 256) r.link in
      ((out.ok, out.status), record r { link = link })

  unfoldable pub end_action : Outcome → ControllerActionJob → ControllerActionJob
  end_action (ok, status) job = record job { state = JobState.completed; ok = ok; status = status }

  unfoldable pub process_one_controller_action :
      Text → ActionQueue × Registry W C → ActionQueue × Registry W C
  unfolding end_action
  process_one_controller_action now (q, r) = elim q.pending [
    | [] ↦ (q, r)
    | p ∷ rest ↦
        let started = adjust p.id (λ j. record j { state = JobState.running }) q.jobs in
        let (outcome, after) = run_action p p.action now r in
        (record q { pending = rest; jobs = adjust p.id (end_action outcome) started }, after)
  ]
