-- ===== src/Raftstore/Apply/Admin/Callbacks.antt =====
-- kv/raftstore/peer_msg_handler.go: the callbacks that are called while admin requests are applied;
-- only a peer that is destroyed calls any.
use tinykv.Prelude.{
  ℕ, ◌+◌, ◌≡◌, refl, sym, ap, subst, arith, Bool, true, false, not, ◌&&◌, ltb, ◌==◌, Option, none,
  some, List, [], ◌∷◌, length, lookup, insert, erase, inl, inr, Result, ok, panic, explicit,
  or_panic, >>=-eq-ok, if-eq-ok, ok-injective, Bool-cases, if_true, if_false,
}
use tinykv.Raft.Pb.{Entry, ConfChange, ConfChangeType, add_node, remove_node}
use tinykv.Raft.RawNode.{RawNode, apply_conf_change}
use tinykv.Raftstore.Cmd.{
  Peer, Region, SplitRequest, AdminRequest, invalid_admin, transfer_leader, change_peer,
  compact_log, split, RaftCmdRequest, add_peer, remove_peer, find_peer,
}
use tinykv.Raftstore.Engine.{Write, set_region_state, normal}
use tinykv.Raftstore.Check.{EpochError, check_region_epoch, missing_header, epoch_not_match}
use tinykv.Raftstore.Apply.{Parameters, Handler, Proposal, Answer, region_not_found}
use tinykv.Raftstore.Apply.Admin.{
  not_found, emit, schedule_compact_log, handle_compact_log, set_region, write_kv, is_initialized,
  destroy, destroy_peer, new_member, conf_changed, with_member, add_member, remove_member,
  change_member, checked_change, handle_change_peer, split_into, region_split, start_peer,
  handle_split, with_batch, handle_admin_request, next_conf_ver, valid_split_key,
}
use tinykv.Raftstore.Apply.Pop.{
  waiting, called, Settles, Settles-refl, Settles-trans, Settles-out, Settles-out_left,
}

called-not_found :
    (cb id : ℕ) (ps : List Proposal) (answers : List (ℕ × Answer))
    → called cb (not_found id ps answers) ≡ waiting cb ps + called cb answers
unfolding not_found
called-not_found cb id [] answers = omega arith
called-not_found cb id (p ∷ ps) answers =
    omega (arith, called-not_found cb id ps ((p.cb, region_not_found id) ∷ answers))

module _ (m : Parameters) where
  open m use {unmarshal, unmarshal_conf_change, Ranges, replace_or_insert, delete_range}

  handle_compact_log-Settles :
      (h : Handler Ranges) (index term : ℕ) (wb : List Write)
      → Settles h (handle_compact_log m h index term wb).0
  unfolding handle_compact_log schedule_compact_log emit
  handle_compact_log-Settles h index term wb =
      elim (Bool-cases (ltb h.peer_storage.truncated_index index)) [
        | inl y ↦
            subst (λ (s : Handler Ranges × List Write). Settles h s.0) (sym (if_true _ _ y))
              (Settles-refl refl refl)
        | inr n ↦
            subst (λ (s : Handler Ranges × List Write). Settles h s.0) (sym (if_false _ _ n))
              (Settles-refl refl refl)
      ]

  destroy-Settles : (h : Handler Ranges) → Settles h (destroy m h)
  unfolding destroy emit write_kv
  destroy-Settles h = record {
    owed = λ cb. omega (arith, called-not_found cb h.region.id h.proposals h.answers);
    kept = λ cb. omega (arith, called-not_found cb h.region.id h.proposals h.answers);
  }

  destroy_peer-Settles :
      (h : Handler Ranges) {out : Handler Ranges} → destroy_peer m h ≡ ok out → Settles h out
  unfolding destroy_peer emit
  destroy_peer-Settles h e =
      let deleted = delete_range h.region_ranges h.region in
      elim (if-eq-ok (is_initialized m h.region && not deleted.0) _ _ e) [
        | inl (y, x) ↦ cc
        | inr (y, x) ↦
            let (r, found, o) = >>=-eq-ok (or_panic explicit (lookup h.region_id h.regions)) _ x in
            let s = destroy-Settles h in Settles-out o (record { owed = s.owed; kept = s.kept })
      ]

  conf_changed-Settles :
      (cc : ConfChange) (region : Region) (h : Handler Ranges) {out : Handler Ranges}
      → conf_changed m cc region h ≡ ok out
      → Settles h out
  unfolding conf_changed set_region
  conf_changed-Settles cc region h e =
      let (rn, r, o) =
        >>=-eq-ok (apply_conf_change h.raft_group cc)
          (λ (rn : RawNode). ok (record (set_region m region h) { raft_group = rn })) e in
      Settles-out o (Settles-refl refl refl)

  with_member-Settles :
      (h : Handler Ranges) (cc : ConfChange) (pr : Peer) (added : Bool × Region)
      {out : Handler Ranges}
      → with_member m h cc pr added ≡ ok out
      → Settles h out
  unfolding with_member write_kv
  with_member-Settles h cc pr (false, region) e = Settles-out e (Settles-refl refl refl)
  with_member-Settles h cc pr (true, region) e =
      let next = next_conf_ver region in
      let g = write_kv m (set_region_state next.id normal next ∷ []) h in
      let s =
        conf_changed-Settles cc next (record g { peer_cache = insert pr.id pr g.peer_cache }) e in
      record { owed = s.owed; kept = s.kept }

  add_member-Settles :
      (h : Handler Ranges) (cc : ConfChange) (pr : Peer) {out : Handler Ranges}
      → add_member m h cc pr ≡ ok out
      → Settles h out
  unfolding add_member write_kv
  add_member-Settles h cc pr e =
      let (added, a, o) = >>=-eq-ok (add_peer h.region pr) (with_member m h cc pr) e in
      with_member-Settles h cc pr added o

  remove_member-Settles :
      (h : Handler Ranges) (cc : ConfChange) {out : Handler Ranges}
      → remove_member m h cc ≡ ok out
      → Settles h out
  unfolding remove_member write_kv set_region
  remove_member-Settles h cc e =
      let removed = remove_peer cc.node_id h.region.peers in
      let region : Region = record h.region { peers = removed.1 } in
      let next = next_conf_ver region in
      let g = write_kv m (set_region_state h.region_id normal next ∷ []) h in
      elim (if-eq-ok (not removed.0) _ _ e) [
        | inl x ↦ conf_changed-Settles cc region h x.1
        | inr x ↦ elim (if-eq-ok (cc.node_id == h.raft_group.raft.id) _ _ x.1) [
          | inl y ↦
              let s = destroy_peer-Settles (set_region m region h) y.1 in
              record { owed = s.owed; kept = s.kept }
          | inr y ↦
              let s =
                conf_changed-Settles cc next
                  (record g { peer_cache = erase cc.node_id g.peer_cache }) y.1 in
              record { owed = s.owed; kept = s.kept }
        ]
      ]

  change_member-Settles :
      (h : Handler Ranges) (cc : ConfChange) (msg : RaftCmdRequest) (t : ConfChangeType)
      {out : Handler Ranges}
      → change_member m h cc msg t ≡ ok out
      → Settles h out
  unfolding change_member
  change_member-Settles h cc msg add_node e =
      let (pr, p, o) = >>=-eq-ok (new_member m msg.admin_request) (add_member m h cc) e in
      add_member-Settles h cc pr o
  change_member-Settles h cc msg remove_node e = remove_member-Settles h cc e

  checked_change-Settles :
      (h : Handler Ranges) (cc : ConfChange) (msg : RaftCmdRequest) (err : Option EpochError)
      {out : Handler Ranges}
      → checked_change m h cc msg err ≡ ok out
      → Settles h out
  unfolding checked_change
  checked_change-Settles h cc msg (some epoch_not_match) e = Settles-out e (Settles-refl refl refl)
  checked_change-Settles h cc msg (some missing_header) e =
      change_member-Settles h cc msg cc.change_type e
  checked_change-Settles h cc msg none e = change_member-Settles h cc msg cc.change_type e

  handle_change_peer-Settles :
      (h : Handler Ranges) (ent : Entry) {out : Handler Ranges}
      → handle_change_peer m h ent ≡ ok out
      → Settles h out
  unfolding handle_change_peer
  handle_change_peer-Settles h ent e =
      let (decoded, d, o) = >>=-eq-ok (or_panic explicit (unmarshal_conf_change ent.payload)) _ e in
      let (msg, u, p) = >>=-eq-ok (or_panic explicit (unmarshal decoded.1)) _ o in
      checked_change-Settles h decoded.0 msg (check_region_epoch msg h.region) p

  start_peer-Settles :
      (h : Handler Ranges) (region : Region) {out : Handler Ranges}
      → start_peer m h region ≡ ok out
      → Settles h out
  unfolding start_peer emit
  start_peer-Settles h region e =
      let (p, f, o) = >>=-eq-ok (or_panic explicit (find_peer h.meta.store_id region.peers)) _ e in
      elim (if-eq-ok (p.id == 0) _ _ o) [
        | inl (y, x) ↦ cc
        | inr (y, x) ↦ Settles-out x (Settles-refl refl refl)
      ]

  region_split-Settles :
      (h : Handler Ranges) (req : SplitRequest) {out : Handler Ranges × Region}
      → region_split m h req ≡ ok out
      → Settles h out.0
  unfolding region_split split_into emit set_region write_kv
  region_split-Settles h req e =
      let (peers, f, o) = >>=-eq-ok _ (λ (peers : List Peer). ok (split_into m h req peers)) e in
      Settles-out_left o (Settles-refl refl refl)

  handle_split-Settles :
      (h : Handler Ranges) (req : SplitRequest) {out : Handler Ranges}
      → handle_split m h req ≡ ok out
      → Settles h out
  unfolding handle_split
  handle_split-Settles h req e =
      elim (if-eq-ok (not (valid_split_key req.split_key h.region.start_key h.region.end_key)) _ _
        e) [
          | inl (b, o) ↦ Settles-out o (Settles-refl refl refl)
          | inr (b, o) ↦
              elim (if-eq-ok (not (length h.region.peers == length req.new_peer_ids)) _ _ o) [
                | inl (c, p) ↦ Settles-out p (Settles-refl refl refl)
                | inr (c, p) ↦
                    let (s, r, q) = >>=-eq-ok (region_split m h req) _ p in
                    Settles-trans (region_split-Settles h req r) (start_peer-Settles s.0 s.1 q)
              ]
        ]

  with_batch-eq-ok :
      (wb : List Write) (r : Result (Handler Ranges)) {out : Handler Ranges × List Write}
      → with_batch m wb r ≡ ok out
      → r ≡ ok out.0
  with_batch-eq-ok wb (ok h) e = ap (λ x. ok x.0) (ok-injective e)
  with_batch-eq-ok wb (panic why) e = cc

  pub handle_admin_request-Settles :
      (h : Handler Ranges) (admin : AdminRequest) (ent : Entry) (wb : List Write)
      {out : Handler Ranges × List Write}
      → handle_admin_request m h admin ent wb ≡ ok out
      → Settles h out.0
  unfolding handle_admin_request
  handle_admin_request-Settles h invalid_admin ent wb e =
      Settles-out_left e (Settles-refl refl refl)
  handle_admin_request-Settles h transfer_leader ent wb e =
      Settles-out_left e (Settles-refl refl refl)
  handle_admin_request-Settles h (compact_log index term) ent wb e =
      Settles-out_left e (handle_compact_log-Settles h index term wb)
  handle_admin_request-Settles h (change_peer p) ent wb e =
      handle_change_peer-Settles h ent (with_batch-eq-ok wb (handle_change_peer m h ent) e)
  handle_admin_request-Settles h (split req) ent wb e =
      handle_split-Settles h req (with_batch-eq-ok wb (handle_split m h req) e)
