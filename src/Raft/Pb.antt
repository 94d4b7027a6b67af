-- ===== src/Raft/Pb.antt =====
-- proto/pkg/eraftpb/eraftpb.pb.go: the types that the raft package reads and writes. A payload is
-- the list of its bytes; an absent embedded message is `none`.
use tinykv.Prelude.{ℕ, Bool, false, Option, none, List, []}

pub data EntryType : Type 0 where
  entry_normal entry_conf_change : EntryType

pub data MessageType : Type 0 where
  msg_hup msg_beat msg_propose msg_append msg_append_response : MessageType
  msg_request_vote msg_request_vote_response msg_snapshot : MessageType
  msg_heartbeat msg_heartbeat_response msg_transfer_leader msg_timeout_now : MessageType

pub record Entry : Type 0 where
  pub entry_type : EntryType
  pub term : ℕ
  pub index : ℕ
  pub payload : List ℕ

pub record ConfState : Type 0 where
  pub nodes : List ℕ

pub record SnapshotMetadata : Type 0 where
  pub conf_state : Option ConfState
  pub index : ℕ
  pub term : ℕ

pub record Snapshot : Type 0 where
  pub payload : List ℕ
  pub metadata : Option SnapshotMetadata

pub record HardState : Type 0 where
  pub term : ℕ
  pub vote : ℕ
  pub commit : ℕ

pub record Message : Type 0 where
  pub msg_type : MessageType
  pub to : ℕ
  pub from : ℕ
  pub term : ℕ
  pub log_term : ℕ
  pub index : ℕ
  pub entries : List Entry
  pub commit : ℕ
  pub snapshot : Option Snapshot
  pub reject : Bool
  pub commit_use : Bool
  pub conflict_term : ℕ

pub data ConfChangeType : Type 0 where
  add_node remove_node : ConfChangeType

pub record ConfChange : Type 0 where
  pub change_type : ConfChangeType
  pub node_id : ℕ

-- pb.Message{MsgType: t}: every other field has Go's zero value.
abbrev pub message : MessageType → Message
message t = record {
  msg_type = t;
  to = 0;
  from = 0;
  term = 0;
  log_term = 0;
  index = 0;
  entries = [];
  commit = 0;
  snapshot = none;
  reject = false;
  commit_use = false;
  conflict_term = 0;
}
