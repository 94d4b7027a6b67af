-- ===== src/Raftstore/Apply.antt =====
-- kv/raftstore/peer_msg_handler.go: the state of a peer that applies committed entries, its proposals
-- and the normal requests (HandleCommitEnts down to handleRequest and handleProposal).
pub mod Admin
pub mod Commit
pub mod Pop
pub mod Callbacks
use tinykv.Prelude.{
  ℕ, ◌+◌, Bool, true, false, not, ◌&&◌, ◌||◌, ltb, ◌==◌, if◌then◌else◌, Option, none, some, List,
  [], ◌∷◌, ◌++◌, Bytes, Result, ok, panic, explicit, nil_dereference, ◌>>=◌,
}
use tinykv.Raft.Pb.{Entry, ConfChange}
use tinykv.Raft.RawNode.{RawNode}
use tinykv.Raftstore.{PeerStorage}
use tinykv.Raftstore.Cmd.{
  RegionEpoch, Peer, Region, Request, invalid, snap, get, put, delete, RaftCmdRequest,
}
use tinykv.Raftstore.Engine.{Engine, Write, set_cf, delete_cf, write_to_db, get_cf}
use tinykv.Raftstore.Check.{check_key_in_region}
use tinykv.Scheduler.Regions.Keys.{is_empty}

pub record Proposal : Type 0 where
  pub index : ℕ
  pub term : ℕ
  pub cb : ℕ

-- A snapshot is the engine's pairs that its transaction sees.
pub data Response : Type 0 where
  got : Bytes → Response
  put_done delete_done : Response
  snap_done : Region → (Bytes → Option Bytes) → Response

pub data Answer : Type 0 where
  stale_command : (term : ℕ) → Answer
  epoch_mismatch : Region → Answer
  key_not_in_region : Bytes → Region → Answer
  region_not_found : (region_id : ℕ) → Answer
  responses : List Response → Answer

-- What is sent to other parts of the store, or written to the raft engine.
pub data Effect : Type 0 where
  raft_log_gc : (region_id : ℕ) (start_idx : ℕ) (end_idx : ℕ) → Effect
  clear_range : (region_id : ℕ) (start_key : Bytes) (end_key : Bytes) → Effect
  clear_raft : (region_id : ℕ) (last_index : ℕ) → Effect
  initial_raft_state : (region_id : ℕ) → Effect
  router_closed : (region_id : ℕ) → Effect
  peer_started : (meta : Peer) (region : Region) → Effect

-- The generated decoders of a command and of a change of the configuration with its context, and
-- the B-tree of the store's regions by their ranges: whether Delete found the region.
pub record Parameters : Type 1 where
  pub unmarshal : Bytes → Option RaftCmdRequest
  pub unmarshal_conf_change : Bytes → Option (ConfChange × Bytes)
  pub Ranges : Type 0
  pub replace_or_insert : Ranges → Region → Ranges
  pub delete_range : Ranges → Region → Bool × Ranges

-- The callbacks are numbers; those that have been called are in `answers`, the last one first.
pub record Handler (Ranges : Type 0) : Type 0 where
  pub meta : Peer
  pub region_id : ℕ
  pub raft_group : RawNode
  pub peer_storage : PeerStorage
  pub region : Region
  pub proposals : List Proposal
  pub peer_cache : List (ℕ × Peer)
  pub last_compacted_idx : ℕ
  pub stopped : Bool
  pub kv : Engine
  pub regions : List (ℕ × Region)
  pub region_ranges : Ranges
  pub effects : List Effect
  pub answers : List (ℕ × Answer)

-- What popProposal returns, the proposals that are left, and the one that is told to be stale.
pub record Popped : Type 0 where
  pub found : Option Proposal
  pub left : List Proposal
  pub stale : Option Proposal

-- A proposal of the term with a lower index is dropped.
unfoldable pub popped : ℕ → ℕ → List Proposal → Popped
popped term index [] = record { found = none; left = []; stale = none }
popped term index (p ∷ ps) =
    let rest = popped term index ps in
    if ltb term p.term || (p.term == term && ltb index p.index)
    then record { found = none; left = p ∷ ps; stale = none }
    else if not (p.term == term)
    then record { found = none; left = ps; stale = some p }
    else if not (p.index == index)
    then rest
    else record { found = some p; left = ps; stale = none }

-- The empty key is nil, which is in every range: an empty field is not encoded.
unfoldable pub get_key : Request → Bytes
get_key (put cf key value) = key
get_key (get cf key) = key
get_key (delete cf key) = key
get_key snap = []
get_key invalid = []

-- The writes of a request, after those of the batch.
unfoldable pub request_writes : Request → List Write → List Write
request_writes (put cf key value) wb = set_cf wb cf key value
request_writes (delete cf key) wb = delete_cf wb cf key
request_writes (get cf key) wb = wb
request_writes snap wb = wb
request_writes invalid wb = wb

abbrev is_nil : List Request → Bool
is_nil [] = true
is_nil (r ∷ rs) = false

module _ {R : Type 0} where
  unfoldable pub done : Handler R → ℕ → Answer → Handler R
  done h cb answer = record h { answers = (cb, answer) ∷ h.answers }

  unfoldable notify_stale_req : Handler R → Option Proposal → Handler R
  unfolding done
  notify_stale_req h none = h
  notify_stale_req h (some p) = done h p.cb (stale_command h.raft_group.raft.term)

  unfoldable pub pop_proposal : Handler R → ℕ → ℕ → Handler R × Option Proposal
  unfolding popped notify_stale_req
  pop_proposal h term index =
      let p = popped term index h.proposals in
      (notify_stale_req (record h { proposals = p.left }) p.stale, p.found)

  unfoldable done_if : Handler R × Option Proposal → Answer → Handler R
  unfolding done
  done_if (h, none) answer = h
  done_if (h, some p) answer = done h p.cb answer

  unfoldable pub check_region_version : Handler R → Entry → RegionEpoch → Handler R × Bool
  unfolding pop_proposal done_if
  check_region_version h ent epoch =
      if not (h.region.region_epoch.version == epoch.version)
      then (done_if (pop_proposal h ent.term ent.index) (epoch_mismatch h.region), false)
      else (h, true)

  unfoldable pub check_key_range : Handler R → Entry → Request → Handler R × Bool
  unfolding pop_proposal done_if get_key check_key_in_region
  check_key_range h ent req =
      let key = get_key req in
      if is_empty key || check_key_in_region key h.region
      then (h, true)
      else (done_if (pop_proposal h ent.term ent.index) (key_not_in_region key h.region), false)

  -- GetCF has an error for a key that is not there.
  unfoldable pub response : Handler R → Request → Result (List Response)
  unfolding get_cf
  response h (get cf key) = elim (get_cf h.kv cf key) [
    | none ↦ panic explicit
    | some value ↦ ok (got value ∷ [])
  ]
  response h (put cf key value) = ok (put_done ∷ [])
  response h (delete cf key) = ok (delete_done ∷ [])
  response h snap = ok (snap_done h.region h.kv.values ∷ [])
  response h invalid = ok []

  unfoldable respond : Request → Entry → Handler R × Option Proposal → Result (Handler R)
  unfolding response done
  respond req ent (h, none) = ok h
  respond req ent (h, some p) =
      if not (p.index == ent.index)
      then panic explicit
      else response h req >>= λ rs. ok (done h p.cb (responses rs))

  unfoldable pub handle_proposal : Handler R → Request → Entry → Result (Handler R)
  unfolding respond pop_proposal
  handle_proposal h req ent = respond req ent (pop_proposal h ent.term ent.index)

  -- The writes go to the engine, and a fresh batch begins.
  unfoldable pub execute_request : Request → Entry → List Write → Handler R → Result (Handler R)
  unfolding request_writes write_to_db handle_proposal
  execute_request req ent wb h =
      handle_proposal (record h { kv = write_to_db (request_writes req wb) h.kv }) req ent

  abbrev and_batch : List Write → Result (Handler R) → Result (Handler R × List Write)
  and_batch wb (ok h) = ok (h, wb)
  and_batch wb (panic e) = panic e

  unfoldable in_range :
      Request → Entry → List Write → Handler R × Bool → Result (Handler R × List Write)
  unfolding execute_request
  in_range req ent wb (h, false) = ok (h, wb)
  in_range req ent wb (h, true) = and_batch [] (execute_request req ent wb h)

  unfoldable in_version :
      Request → Entry → List Write → Handler R × Bool → Result (Handler R × List Write)
  unfolding check_key_range in_range
  in_version req ent wb (h, false) = ok (h, wb)
  in_version req ent wb (h, true) = in_range req ent wb (check_key_range h ent req)

  -- The comparison of versions for a snapshot is that of checkRegionVersion once more.
  unfoldable pub handle_request :
      Handler R → RaftCmdRequest → Entry → List Write → Result (Handler R × List Write)
  unfolding check_region_version in_version
  handle_request h msg ent wb = elim msg.requests [
    | [] ↦ panic explicit
    | req ∷ others ↦ if not (is_nil others) then panic explicit else elim msg.header [
      | none ↦ panic nil_dereference
      | some epoch ↦ in_version req ent wb (check_region_version h ent epoch)
    ]
  ]
