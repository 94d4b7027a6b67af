-- ===== src/Raftstore/Cmd.antt =====
-- proto/pkg/metapb and proto/pkg/raft_cmdpb: regions, and the commands that a peer applies. A key that
-- is not there is the empty one. A command has the body that its type names; a header without an
-- epoch is the same as no header.
use tinykv.Prelude.{
  ℕ, Bool, true, false, not, ◌&&◌, ◌||◌, ◌==◌, if◌then◌else◌, Option, none, some, List, [], ◌∷◌,
  ◌++◌, Bytes, Result, ok, panic, explicit, ◌>>=◌,
}

pub record RegionEpoch : Type 0 where
  pub conf_ver : ℕ
  pub version : ℕ

pub record Peer : Type 0 where
  pub id : ℕ
  pub store_id : ℕ

pub record Region : Type 0 where
  pub id : ℕ
  pub start_key : Bytes
  pub end_key : Bytes
  pub region_epoch : RegionEpoch
  pub peers : List Peer

pub data Request : Type 0 where
  invalid snap : Request
  get : (cf : Bytes) (key : Bytes) → Request
  put : (cf : Bytes) (key : Bytes) (value : Bytes) → Request
  delete : (cf : Bytes) (key : Bytes) → Request

pub record SplitRequest : Type 0 where
  pub split_key : Bytes
  pub new_region_id : ℕ
  pub new_peer_ids : List ℕ

pub data AdminRequest : Type 0 where
  invalid_admin transfer_leader : AdminRequest
  change_peer : Option Peer → AdminRequest
  compact_log : (compact_index : ℕ) (compact_term : ℕ) → AdminRequest
  split : SplitRequest → AdminRequest

pub record RaftCmdRequest : Type 0 where
  pub header : Option RegionEpoch
  pub requests : List Request
  pub admin_request : Option AdminRequest

-- The peer with the identifier is taken out; false if there is none.
unfoldable pub remove_peer : ℕ → List Peer → Bool × List Peer
remove_peer id [] = (false, [])
remove_peer id (pr ∷ peers) =
    let rest = remove_peer id peers in if id == pr.id then (true, peers) else (rest.0, pr ∷ rest.1)

-- The loop over the peers there are; false if the new one is among them.
unfoldable pub is_new_peer : Peer → List Peer → Result Bool
is_new_peer peer [] = ok true
is_new_peer peer (pr ∷ peers) =
    let rest = is_new_peer peer peers in
    if (pr.store_id == peer.store_id && not (pr.id == peer.id))
      || (not (pr.store_id == peer.store_id) && pr.id == peer.id)
    then panic explicit
    else if pr.id == peer.id
    then ok false
    else rest

unfoldable pub add_peer : Region → Peer → Result (Bool × Region)
unfolding is_new_peer
add_peer region peer = do
  fresh ← is_new_peer peer region.peers
  ok (
      if fresh
      then (true, record region { peers = region.peers ++ (peer ∷ []) })
      else (false, region))

unfoldable pub find_peer : ℕ → List Peer → Option Peer
find_peer store_id [] = none
find_peer store_id (pr ∷ peers) =
    let rest = find_peer store_id peers in if pr.store_id == store_id then some pr else rest
