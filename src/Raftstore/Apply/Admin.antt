-- ===== src/Raftstore/Apply/Admin.antt =====
-- kv/raftstore/peer_msg_handler.go: the admin requests (handleAdminRequest), by which the log is
-- compacted, a peer joins or leaves the region, and the region is split.
pub mod Callbacks
use tinykv.Prelude.{
  ℕ, Bool, true, false, not, ◌&&◌, ltb, ◌==◌, if◌then◌else◌, Option, none, some, List, [], ◌∷◌,
  ◌++◌, Bytes, length, add64, Result, ok, panic, explicit, out_of_range, nil_dereference, ◌>>=◌,
  or_panic, lookup, insert, erase,
}
use tinykv.Raft.Pb.{Entry, ConfChange, ConfChangeType, add_node, remove_node}
use tinykv.Raft.RawNode.{apply_conf_change}
use tinykv.Raftstore.{PeerStorage}
use tinykv.Raftstore.Cmd.{
  Peer, Region, SplitRequest, AdminRequest, invalid_admin, transfer_leader, change_peer,
  compact_log, split, RaftCmdRequest, add_peer, remove_peer, find_peer,
}
use tinykv.Raftstore.Engine.{
  ApplyState, normal, tombstone, Write, set_apply_state, delete_apply_state, set_region_state,
  delete_region_state, write_to_db,
}
use tinykv.Raftstore.Check.{check_region_epoch, EpochError, missing_header, epoch_not_match}
use tinykv.Raftstore.Apply.{
  Parameters, Handler, Proposal, Answer, region_not_found, Effect, raft_log_gc, clear_range,
  clear_raft, initial_raft_state, router_closed, peer_started,
}
use tinykv.Scheduler.Regions.Keys.{before, is_empty}

unfoldable pub valid_split_key : Bytes → Bytes → Bytes → Bool
valid_split_key key start end =
    if not (is_empty start) && not (before start key)
    then false
    else if not (is_empty end)
    then before key end
    else true

-- What the engine keeps of the apply state in memory.
unfoldable pub apply_state : PeerStorage → ApplyState
apply_state ps = record {
  applied_index = ps.applied_index;
  truncated_index = ps.truncated_index;
  truncated_term = ps.truncated_term;
}

-- RaftInitLogIndex and RaftInitLogTerm are 5.
unfoldable pub initial_apply_state : ApplyState
initial_apply_state = record { applied_index = 5; truncated_index = 5; truncated_term = 5 }

-- A peer of the new region on the store of each old one.
unfoldable pub split_peers : List Peer → List ℕ → Result (List Peer)
split_peers peers [] = ok []
split_peers [] (id ∷ ids) = panic out_of_range
split_peers (pr ∷ peers) (id ∷ ids) =
    split_peers peers ids >>= λ rest. ok (record { id = id; store_id = pr.store_id } ∷ rest)

-- The new region has InitEpochConfVer and InitEpochVer.
unfoldable pub upper_half : Region → SplitRequest → List Peer → Region
upper_half region req peers = record {
  id = req.new_region_id;
  start_key = req.split_key;
  end_key = region.end_key;
  region_epoch = record { conf_ver = 1; version = 1 };
  peers = peers;
}

unfoldable pub lower_half : Region → SplitRequest → Region
lower_half region req = record region {
  region_epoch = record region.region_epoch { version = add64 region.region_epoch.version 1 };
  end_key = req.split_key;
}

unfoldable pub next_conf_ver : Region → Region
next_conf_ver region = record region {
  region_epoch = record region.region_epoch { conf_ver = add64 region.region_epoch.conf_ver 1 };
}

unfoldable pub not_found : ℕ → List Proposal → List (ℕ × Answer) → List (ℕ × Answer)
not_found region_id [] answers = answers
not_found region_id (p ∷ ps) answers =
    not_found region_id ps ((p.cb, region_not_found region_id) ∷ answers)

module _ (m : Parameters) where
  open m use {unmarshal, unmarshal_conf_change, Ranges, replace_or_insert, delete_range}

  unfoldable emit : Effect → Handler Ranges → Handler Ranges
  emit e h = record h { effects = e ∷ h.effects }

  unfoldable pub schedule_compact_log : Handler Ranges → ℕ → Handler Ranges
  unfolding emit
  schedule_compact_log h truncated =
      emit (raft_log_gc h.region_id h.last_compacted_idx (add64 truncated 1))
        (record h { last_compacted_idx = add64 truncated 1 })

  unfoldable pub handle_compact_log :
      Handler Ranges → ℕ → ℕ → List Write → Handler Ranges × List Write
  unfolding apply_state schedule_compact_log
  handle_compact_log h index term wb =
      if ltb h.peer_storage.truncated_index index
      then (let ps : PeerStorage = record h.peer_storage {
        truncated_index = index;
        truncated_term = term;
      } in
          (
            schedule_compact_log (record h { peer_storage = ps }) index,
            wb ++ (set_apply_state h.region_id (apply_state ps) ∷ []),
          ))
      else (h, wb)

  -- storeMeta.setRegion, for this peer.
  unfoldable pub set_region : Region → Handler Ranges → Handler Ranges
  set_region region h = record h { regions = insert region.id region h.regions; region = region }

  unfoldable write_kv : List Write → Handler Ranges → Handler Ranges
  unfolding write_to_db
  write_kv wb h = record h { kv = write_to_db wb h.kv }

  abbrev is_initialized : Region → Bool
  is_initialized region = ltb 0 (length region.peers)

  -- Destroy, with the data.
  unfoldable pub destroy : Handler Ranges → Handler Ranges
  unfolding write_kv emit not_found
  destroy h =
      let id = h.region.id in
      let h1 =
        write_kv
          (delete_region_state id
            ∷ delete_apply_state id
            ∷ set_region_state id tombstone h.region
            ∷ [])
          h in
      let h2 = emit (clear_raft id h.peer_storage.raft_state.last_index) h1 in
      let h3 =
        if is_initialized h.region
        then emit (clear_range id h.region.start_key h.region.end_key) h2
        else h2 in
      record h3 { answers = not_found id h.proposals h.answers; proposals = [] }

  unfoldable pub destroy_peer : Handler Ranges → Result (Handler Ranges)
  unfolding emit destroy
  destroy_peer h =
      let h1 = record (emit (router_closed h.region_id) (destroy h)) { stopped = true } in
      let deleted = delete_range h.region_ranges h.region in
      let ranges = if is_initialized h.region then deleted.1 else h.region_ranges in
      if is_initialized h.region && not deleted.0
      then panic explicit
      else or_panic explicit (lookup h.region_id h.regions) >>= λ r.
          ok (record h1 { region_ranges = ranges; regions = erase h.region_id h.regions })

  unfoldable new_member : Option AdminRequest → Result Peer
  new_member (some (change_peer (some p))) = ok p
  new_member _ = panic nil_dereference

  -- The change is handed to the raft node.
  unfoldable conf_changed : ConfChange → Region → Handler Ranges → Result (Handler Ranges)
  unfolding set_region
  conf_changed cc region h = do
    rn ← apply_conf_change h.raft_group cc
    ok (record (set_region region h) { raft_group = rn })

  -- The region with the member, if it is a new one.
  unfoldable with_member :
      Handler Ranges → ConfChange → Peer → Bool × Region → Result (Handler Ranges)
  unfolding next_conf_ver write_kv conf_changed
  with_member h cc pr (false, region) = ok h
  with_member h cc pr (true, grown) =
      let region = next_conf_ver grown in
      let h1 = write_kv (set_region_state region.id normal region ∷ []) h in
      conf_changed cc region (record h1 { peer_cache = insert pr.id pr h1.peer_cache })

  unfoldable pub add_member : Handler Ranges → ConfChange → Peer → Result (Handler Ranges)
  unfolding with_member
  add_member h cc pr = add_peer h.region pr >>= with_member h cc pr

  unfoldable pub remove_member : Handler Ranges → ConfChange → Result (Handler Ranges)
  unfolding next_conf_ver write_kv conf_changed destroy_peer set_region
  remove_member h cc =
      let removed = remove_peer cc.node_id h.region.peers in
      let region : Region = record h.region { peers = removed.1 } in
      let next = next_conf_ver region in
      let h1 = write_kv (set_region_state h.region_id normal next ∷ []) h in
      if not removed.0
      then conf_changed cc region h
      else if cc.node_id == h.raft_group.raft.id
      then destroy_peer (set_region region h)
      else conf_changed cc next (record h1 { peer_cache = erase cc.node_id h1.peer_cache })

  unfoldable change_member :
      Handler Ranges → ConfChange → RaftCmdRequest → ConfChangeType → Result (Handler Ranges)
  unfolding new_member add_member remove_member
  change_member h cc msg add_node = new_member msg.admin_request >>= add_member h cc
  change_member h cc msg remove_node = remove_member h cc

  -- An epoch that does not match is passed over; a command without a header goes on.
  unfoldable checked_change :
      Handler Ranges → ConfChange → RaftCmdRequest → Option EpochError → Result (Handler Ranges)
  unfolding change_member
  checked_change h cc msg (some epoch_not_match) = ok h
  checked_change h cc msg (some missing_header) = change_member h cc msg cc.change_type
  checked_change h cc msg none = change_member h cc msg cc.change_type

  unfoldable pub handle_change_peer : Handler Ranges → Entry → Result (Handler Ranges)
  unfolding checked_change check_region_epoch
  handle_change_peer h ent = or_panic explicit (unmarshal_conf_change ent.payload) >>= λ decoded.
      or_panic explicit (unmarshal decoded.1) >>= λ msg.
      checked_change h decoded.0 msg (check_region_epoch msg h.region)

  -- The states of both regions are written at once.
  unfoldable pub split_into : Handler Ranges → SplitRequest → List Peer → Handler Ranges × Region
  unfolding upper_half lower_half write_kv set_region emit initial_apply_state
  split_into h req peers =
      let upper = upper_half h.region req peers in
      let lower = lower_half h.region req in
      let h1 =
        write_kv
          (set_apply_state upper.id initial_apply_state
            ∷ set_region_state upper.id normal upper
            ∷ set_region_state lower.id normal lower
            ∷ [])
          h in
      (emit (initial_raft_state upper.id) (set_region lower h1), upper)

  -- The region that is split, and the new one.
  unfoldable pub region_split : Handler Ranges → SplitRequest → Result (Handler Ranges × Region)
  unfolding split_peers split_into
  region_split h req =
      (if length req.new_peer_ids == 0
        then panic explicit
        else split_peers h.region.peers req.new_peer_ids)
      >>= λ peers. ok (split_into h req peers)

  -- createPeer, setRegion for the new peer, and its registration and start. A peer whose identifier
  -- is InvalidID, which is 0, is refused by NewPeer; what else NewPeer does is the new peer's.
  unfoldable pub start_peer : Handler Ranges → Region → Result (Handler Ranges)
  unfolding emit find_peer
  start_peer h region = or_panic explicit (find_peer h.meta.store_id region.peers) >>= λ p.
      if p.id == 0
      then panic explicit
      else ok (
          emit (peer_started p region) (record h {
            regions = insert region.id region h.regions;
            region_ranges = replace_or_insert h.region_ranges region;
          }))

  unfoldable pub handle_split : Handler Ranges → SplitRequest → Result (Handler Ranges)
  unfolding valid_split_key region_split start_peer
  handle_split h req =
      if not (valid_split_key req.split_key h.region.start_key h.region.end_key)
      then ok h
      else if not (length h.region.peers == length req.new_peer_ids)
      then ok h
      else region_split h req >>= λ s. start_peer s.0 s.1

  abbrev pub with_batch :
      List Write → Result (Handler Ranges) → Result (Handler Ranges × List Write)
  with_batch wb (ok h) = ok (h, wb)
  with_batch wb (panic e) = panic e

  unfoldable pub handle_admin_request :
      Handler Ranges → AdminRequest → Entry → List Write → Result (Handler Ranges × List Write)
  unfolding handle_compact_log handle_change_peer handle_split
  handle_admin_request h invalid_admin ent wb = ok (h, wb)
  handle_admin_request h transfer_leader ent wb = ok (h, wb)
  handle_admin_request h (compact_log index term) ent wb = ok (handle_compact_log h index term wb)
  handle_admin_request h (change_peer p) ent wb = with_batch wb (handle_change_peer h ent)
  handle_admin_request h (split req) ent wb = with_batch wb (handle_split h req)
