-- ===== src/Raftstore/Apply/Commit.antt =====
-- kv/raftstore/peer_msg_handler.go: the committed entries of a Ready are applied, one after the other
-- (HandleCommitEnts).
pub mod Once
use tinykv.Prelude.{
  ℕ, Bool, true, false, not, if◌then◌else◌, Option, none, some, List, [], ◌∷◌, ◌++◌, get_last?,
  Result, ok, panic, explicit, ◌>>=◌, or_panic,
}
use tinykv.Raft.Pb.{Entry, EntryType, entry_normal, entry_conf_change}
use tinykv.Raftstore.Cmd.{Request, change_peer, RaftCmdRequest}
use tinykv.Raftstore.Engine.{Write, set_apply_state, write_to_db}
use tinykv.Raftstore.Apply.{Parameters, Handler, handle_request}
use tinykv.Raftstore.Apply.Admin.{handle_admin_request, apply_state}
use tinykv.Scheduler.Regions.Keys.{is_empty}

abbrev pub no_requests : List Request → Bool
no_requests [] = true
no_requests (r ∷ rs) = false

module _ (m : Parameters) where
  open m use {unmarshal, Ranges}

  -- The command of an entry; that of a change of the configuration is made up.
  unfoldable pub command_of : Entry → EntryType → Result RaftCmdRequest
  command_of ent entry_normal = or_panic explicit (unmarshal ent.payload)
  command_of ent entry_conf_change =
      ok (record { header = none; requests = []; admin_request = some (change_peer none) })

  unfoldable pub apply_command :
      Handler Ranges → RaftCmdRequest → Entry → List Write → Result (Handler Ranges × List Write)
  unfolding handle_admin_request handle_request
  apply_command h msg ent wb = elim msg.admin_request [
    | none ↦ handle_request h msg ent wb
    | some admin ↦
        if not (no_requests msg.requests)
        then panic explicit
        else handle_admin_request m h admin ent wb
  ]

  unfoldable pub apply_entry :
      Entry → Handler Ranges → List Write → Result (Handler Ranges × List Write)
  unfolding command_of apply_command
  apply_entry ent h wb = command_of ent ent.entry_type >>= λ msg. apply_command h msg ent wb

  -- An entry without data is passed over; a peer that is stopped applies no more.
  unfoldable pub apply_entries :
      List Entry → Handler Ranges → List Write → Result (Handler Ranges × List Write)
  unfolding apply_entry
  apply_entries [] h wb = ok (h, wb)
  apply_entries (ent ∷ ents) h wb =
      let pass = apply_entries ents h wb in
      if is_empty ent.payload
      then pass
      else apply_entry ent h wb >>= λ s.
          let more = apply_entries ents s.0 s.1 in if s.0.stopped then ok s else more

  unfoldable pub finish : ℕ → Handler Ranges × List Write → Handler Ranges
  unfolding apply_state write_to_db
  finish index (h, wb) =
      let ps = record h.peer_storage { applied_index = index } in
      if h.stopped then h else record h {
        peer_storage = ps;
        kv = write_to_db (wb ++ (set_apply_state h.region_id (apply_state ps) ∷ [])) h.kv;
      }

  unfoldable pub handle_commit_ents : Handler Ranges → List Entry → Result (Handler Ranges)
  unfolding apply_entries finish
  handle_commit_ents h ents = elim (get_last? ents) [
    | none ↦ ok h
    | some last ↦ apply_entries ents h [] >>= λ s. ok (finish last.index s)
  ]
