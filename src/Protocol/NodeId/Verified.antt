-- ===== src/Protocol/NodeId/Verified.antt =====
-- src/unex/Unex721Protocol.cpp: `setNodeId` reports success only behind a control read of the new node.
use monk_skud_unex.Base.{
  ℕ, [], ◌∷◌, get_or, true, ◌||◌, Bytes, Option, none, some, pos, eq_ℤ, ◌==◌, not, ◌≡◌, ◌⊎◌, refl,
  arith, inl, inr, Bool-cases,
}
use monk_skud_unex.Protocol.Link.{Port, Link, transact, tell}
use monk_skud_unex.Protocol.Reply.{acknowledged, Reply, check_ack}
use monk_skud_unex.Protocol.NodeId.{
  is_node, read_node_id, verify_node_id, after_set, after_ack, change_node_id, set_node_id,
}

module _ {W : Type 0} (io : Port W) where
  -- The reader was asked for its node and answered this one.
  pub record Reports (asked node : ℕ) (final : Link W) : Type 0 where
    pub before : Link W
    pub answered : (read_node_id io asked before).0.ok ≡ true
    pub reported : eq_ℤ (read_node_id io asked before).0.reported_node (pos node) ≡ true
    pub last : final.port ≡ (read_node_id io asked before).1.port

  verify_node_id-Reports :
      (current new : ℕ) (s : Link W)
      → (verify_node_id io current new s).0.ok ≡ true
      → Reports new new (verify_node_id io current new s).1
  unfolding verify_node_id tell
  verify_node_id-Reports current new s h =
      let after = (read_node_id io new s).0 in
      elim (Bool-cases (not after.ok || not (eq_ℤ after.reported_node (pos new)))) [
        | inl bad ↦ absurd (ground arith)
        | inr good ↦ record {
          before = s;
          answered = ground arith;
          reported = ground arith;
          last = rw (good, verify_node_id) refl;
        }
      ]

  after_ack-Reports :
      (current new : ℕ) (ack : Bytes) (r : Reply) (s : Link W)
      → (after_ack io current new ack r s).0.ok ≡ true
      → Reports new new (after_ack io current new ack r s).1
  unfolding after_ack
  after_ack-Reports current new ack acknowledged s h = elim (Bool-cases (get_or ack 4 0 == new)) [
    | inl same ↦
        rw (same, after_ack) (verify_node_id-Reports current new s (rw (same, after_ack) at h))
    | inr other ↦ absurd (ground arith)
  ]
  after_ack-Reports current new ack _ s h = absurd (ground arith)

  after_set-Reports :
      (current new : ℕ) (ack : Option Bytes) (s : Link W)
      → (after_set io current new ack s).0.ok ≡ true
      → Reports new new (after_set io current new ack s).1
  unfolding after_set
  after_set-Reports current new none s h = absurd (ground arith)
  after_set-Reports current new (some ack) s h =
      after_ack-Reports current new ack (check_ack 7 (some ack)) s h

  -- What a change of the node leaves: the reader answered under its old node before, and either that
  -- was the node wanted, or the last exchange was with the new node, which reported itself.
  pub record IsRenumbered (current new : ℕ) (s final : Link W) : Type 0 where
    pub from : is_node current ≡ true
    pub to : is_node new ≡ true
    pub known : (read_node_id io current s).0.ok ≡ true
    pub was : eq_ℤ (read_node_id io current s).0.reported_node (pos current) ≡ true
    pub result : ((current ≡ new) × (final ≡ (read_node_id io current s).1)) ⊎ Reports new new final

  change_node_id-IsRenumbered :
      (current new : ℕ) (s : Link W)
      → is_node current ≡ true
      → is_node new ≡ true
      → (change_node_id io current new
          (read_node_id io current s).0
          (read_node_id io current s).1).0.ok
        ≡ true
      → IsRenumbered current new s
          (change_node_id io current new
            (read_node_id io current s).0
            (read_node_id io current s).1).1
  unfolding change_node_id
  change_node_id-IsRenumbered current new s hc hn h =
      let probe = read_node_id io current s in
      let set = transact io current 0x80 (new ∷ []) 500 probe.1 in
      elim (Bool-cases probe.0.ok) [
        | inr failed ↦ absurd (ground arith)
        | inl known ↦ elim (Bool-cases (eq_ℤ probe.0.reported_node (pos current))) [
          | inr other ↦ absurd (ground arith)
          | inl was ↦ elim (Bool-cases (current == new)) [
            | inl same ↦ record {
              from = hc;
              to = hn;
              known = known;
              was = was;
              result = inl (ground arith, rw (known, was, same, change_node_id));
            }
            | inr change ↦ record {
              from = hc;
              to = hn;
              known = known;
              was = was;
              result = inr (
                  rw (known, was, change, change_node_id)
                    (after_set-Reports current new set.0 set.1
                      (rw (known, was, change, change_node_id) at h)));
            }
          ]
        ]
      ]

  -- `setNodeId` answers success only for two nodes of 1..254, for a reader that answered under the old
  -- node before; and either the two are one node and nothing more is sent, or the last exchange is a 24H
  -- to the new node to which the reader answers that it has the new node.
  pub set_node_id-IsRenumbered :
      (current new : ℕ) (s : Link W)
      → (set_node_id io current new s).0.ok ≡ true
      → IsRenumbered current new s (set_node_id io current new s).1
  unfolding set_node_id
  set_node_id-IsRenumbered current new s h =
      elim (Bool-cases (not (is_node current) || not (is_node new))) [
        | inl bad ↦ absurd (ground arith)
        | inr good ↦
            rw (good, set_node_id)
              (change_node_id-IsRenumbered current new s (ground arith) (ground arith)
                (rw (good, set_node_id) at h))
      ]
