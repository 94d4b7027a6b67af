-- ===== src/Raft/RawNode.antt =====
-- raft/rawnode.go: the wrapper by which the store drives a node, and hands out its work.
pub mod Handed
pub mod Handover
use tinykv.Prelude.{
  ℕ, Bool, true, false, ◌&&◌, ◌||◌, not, Option, none, some, List, [], ◌∷◌, length, get_last?, ltb,
  ◌==◌, if◌then◌else◌, Result, ok, ◌>>=◌, lookup,
}
use tinykv.Raft.Pb.{
  Entry, entry_normal, entry_conf_change, Message, MessageType, message, msg_hup, msg_beat,
  msg_propose, msg_append_response, msg_request_vote_response, msg_heartbeat_response,
  msg_transfer_leader, HardState, Snapshot, ConfChange, ConfChangeType, add_node, remove_node,
}
use tinykv.Raft.Log.{
  RaftLog, unstable_entries, next_ents, has_unstable_ents, has_next_ents, maybe_compact,
}
use tinykv.Raft.Node.{
  Raft, Config, Progress, StateType, state_follower, state_candidate, state_leader, new_raft,
  hard_state,
}
use tinykv.Raft.Election.{tick}
use tinykv.Raft.Member
use tinykv.Raft.Step
use tinykv.Raft.Step.{step}

pub record SoftState : Type 0 where
  pub lead : ℕ
  pub raft_state : StateType

same_state : StateType → StateType → Bool
same_state state_follower state_follower = true
same_state state_candidate state_candidate = true
same_state state_leader state_leader = true
same_state _ _ = false

unfoldable pub soft_state_equal : SoftState → SoftState → Bool
unfolding same_state
soft_state_equal a b = same_state a.raft_state b.raft_state && a.lead == b.lead

unfoldable pub hard_state_equal : HardState → HardState → Bool
hard_state_equal a b = a.commit == b.commit && (a.vote == b.vote && a.term == b.term)

abbrev pub empty_hard_state : HardState
empty_hard_state = record { term = 0; vote = 0; commit = 0 }

-- A nil soft state and an empty snapshot are `none`; an unchanged hard state is the empty one.
pub record Ready : Type 0 where
  pub soft_state : Option SoftState
  pub hard_state : HardState
  pub entries : List Entry
  pub snapshot : Option Snapshot
  pub committed_entries : List Entry
  pub messages : List Message

pub record RawNode : Type 0 where
  pub raft : Raft
  pub prev_soft_state : SoftState
  pub prev_hard_state : HardState

unfoldable pub soft_state : Raft → SoftState
soft_state r = record { lead = r.lead; raft_state = r.state }

unfoldable pub new_raw_node : Config → (ℕ → ℕ) → Result RawNode
unfolding soft_state
new_raw_node config rand = do
  raft ← new_raft config rand
  ok (record { raft = raft; prev_soft_state = soft_state raft; prev_hard_state = hard_state raft })

on_raft : RawNode → Result Raft → Result RawNode
on_raft rn m = do raft ← m; ok (record rn { raft = raft })

unfoldable pub raw_tick : RawNode → Result RawNode
unfolding on_raft
raw_tick rn = on_raft rn (tick rn.raft)

unfoldable pub campaign : RawNode → Result RawNode
unfolding on_raft
campaign rn = on_raft rn (step rn.raft (message msg_hup))

unfoldable pub propose : RawNode → List ℕ → Result RawNode
unfolding on_raft
propose rn bytes = on_raft rn (
    step rn.raft (record (message msg_propose) {
      from = rn.raft.id;
      entries = record { entry_type = entry_normal; term = 0; index = 0; payload = bytes } ∷ [];
    }))

-- `marshal` is the generated encoder of a ConfChange; `none` is its error, which is returned.
unfoldable pub propose_conf_change :
    (ConfChange → Option (List ℕ)) → RawNode → ConfChange → Result (RawNode × Bool)
unfolding on_raft
propose_conf_change marshal rn cc = elim (marshal cc) [
  | none ↦ ok (rn, false)
  | some bytes ↦ do
    rn' ← on_raft rn (
        step rn.raft (record (message msg_propose) {
          entries =
              record { entry_type = entry_conf_change; term = 0; index = 0; payload = bytes } ∷ [];
        }))
    ok (rn', true)
]

apply_change : ConfChangeType → Raft → ℕ → Result Raft
apply_change add_node r id = ok (Member.add_node r id)
apply_change remove_node r id = Member.remove_node r id

-- The list of nodes that Go returns, the sorted keys of the progress map, has no reader.
unfoldable pub apply_conf_change : RawNode → ConfChange → Result RawNode
unfolding on_raft apply_change
apply_conf_change rn cc =
    if cc.node_id == 0 then ok rn else on_raft rn (apply_change cc.change_type rn.raft cc.node_id)

unfoldable pub is_local_msg : MessageType → Bool
is_local_msg msg_hup = true
is_local_msg msg_beat = true
is_local_msg _ = false

unfoldable pub is_response_msg : MessageType → Bool
is_response_msg msg_append_response = true
is_response_msg msg_request_vote_response = true
is_response_msg msg_heartbeat_response = true
is_response_msg _ = false

pub data StepError : Type 0 where
  step_local_msg step_peer_not_found : StepError

has_peer : Option Progress → Bool
has_peer none = false
has_peer (some pr) = true

unfoldable pub raw_step : RawNode → Message → Result (RawNode × Option StepError)
unfolding on_raft has_peer
raw_step rn m =
    if is_local_msg m.msg_type
    then ok (rn, some step_local_msg)
    else if has_peer (lookup m.from rn.raft.prs) || not (is_response_msg m.msg_type)
    then (do rn' ← on_raft rn (step rn.raft m); ok (rn', none))
    else ok (rn, some step_peer_not_found)

unfoldable pub is_empty_snap : Option Snapshot → Bool
is_empty_snap none = true
is_empty_snap (some s) = elim s.metadata [ none ↦ true | some md ↦ md.index == 0 ]

-- The Ready that the node hands out, with the entries that its log returned.
unfoldable pub ready_of : RawNode → List Entry → List Entry → Ready
ready_of rn unstable committed =
    let r = rn.raft in
    record {
      soft_state =
          if soft_state_equal rn.prev_soft_state (soft_state r) then none else some (soft_state r);
      hard_state =
          if hard_state_equal rn.prev_hard_state (hard_state r)
          then empty_hard_state
          else hard_state r;
      entries = unstable;
      snapshot =
          if is_empty_snap r.raft_log.pending_snapshot then none else r.raft_log.pending_snapshot;
      committed_entries = committed;
      messages = r.msgs;
    }

-- The node that is left: no messages, no pending snapshot, and the new previous states.
unfoldable pub taken : RawNode → RawNode
taken rn =
    let r = rn.raft in
    let log = record r.raft_log {
      pending_snapshot =
          if is_empty_snap r.raft_log.pending_snapshot then r.raft_log.pending_snapshot else none;
    } in
    record {
      raft = record r { msgs = []; raft_log = log };
      prev_soft_state =
          if soft_state_equal rn.prev_soft_state (soft_state r)
          then rn.prev_soft_state
          else soft_state r;
      prev_hard_state =
          if hard_state_equal rn.prev_hard_state (hard_state r)
          then rn.prev_hard_state
          else hard_state r;
    }

unfoldable pub ready : RawNode → Result (RawNode × Ready)
ready rn = do
  unstable ← unstable_entries rn.raft.raft_log
  committed ← next_ents rn.raft.raft_log
  ok (taken rn, ready_of rn unstable committed)

unfoldable pub has_ready : RawNode → Result Bool
unfolding soft_state
has_ready rn =
    let r = rn.raft in
    if not (soft_state_equal (soft_state r) rn.prev_soft_state)
    then ok true
    else if not (hard_state_equal (hard_state r) empty_hard_state)
        && not (hard_state_equal (hard_state r) rn.prev_hard_state)
    then ok true
    else if not (is_empty_snap r.raft_log.pending_snapshot)
    then ok true
    else if ltb 0 (length r.msgs)
    then ok true
    else if has_unstable_ents r.raft_log
    then ok true
    else has_next_ents r.raft_log

index_or : ℕ → Option Entry → ℕ
index_or i none = i
index_or i (some e) = e.index

unfoldable pub advance : RawNode → Ready → Result RawNode
unfolding index_or on_raft
advance rn rd = do
  let l = rn.raft.raft_log
  l' ← maybe_compact (record l {
    stabled = index_or l.stabled (get_last? rd.entries);
    applied = index_or l.applied (get_last? rd.committed_entries);
  })
  ok (record rn { raft = record rn.raft { raft_log = l' } })

unfoldable pub get_progress : RawNode → List (ℕ × Progress)
get_progress rn = elim rn.raft.state [ state_leader ↦ rn.raft.prs | _ ↦ [] ]

unfoldable pub transfer_leader : RawNode → ℕ → Result RawNode
unfolding on_raft
transfer_leader rn transferee =
    on_raft rn (step rn.raft (record (message msg_transfer_leader) { from = transferee }))
