-- ===== src/Raftstore/Apply/Commit/Once.antt =====
-- kv/raftstore/peer_msg_handler.go: no callback is called twice while a Ready's entries are applied.
use tinykv.Prelude.{
  ℕ, ◌≡◌, refl, not, if◌then◌else◌, Bool-cases, if_true, if_false, sym, subst, Option, none, some,
  List, [], ◌∷◌, get_last?, inl, inr, ok, panic, explicit, ◌>>=◌, >>=-eq-ok, if-eq-ok,
}
use tinykv.Raft.Pb.{Entry}
use tinykv.Raftstore.Cmd.{AdminRequest, RaftCmdRequest}
use tinykv.Raftstore.Engine.{Write}
use tinykv.Raftstore.Apply.{Parameters, Handler, handle_request}
use tinykv.Raftstore.Apply.Admin.{handle_admin_request}
use tinykv.Raftstore.Apply.Admin.Callbacks.{handle_admin_request-Settles}
use tinykv.Raftstore.Apply.Callbacks.{handle_request-Settles}
use tinykv.Raftstore.Apply.Commit.{
  no_requests, command_of, apply_command, apply_entry, apply_entries, finish, handle_commit_ents,
}
use tinykv.Raftstore.Apply.Pop.{Settles, Settles-refl, Settles-trans, Settles-out, Settles-out_left}
use tinykv.Scheduler.Regions.Keys.{is_empty}

module _ (m : Parameters) where
  open m use {Ranges}

  apply_command-Settles :
      (h : Handler Ranges) (msg : RaftCmdRequest) (ent : Entry) (wb : List Write)
      {out : Handler Ranges × List Write}
      → apply_command m h msg ent wb ≡ ok out
      → Settles h out.0
  unfolding apply_command
  apply_command-Settles h msg ent wb {out = out} e = of_admin msg.admin_request e
    where
      of_admin :
          (admin : Option AdminRequest)
          → (elim admin [
            | none ↦ handle_request h msg ent wb
            | some a ↦
                if not (no_requests msg.requests)
                then panic explicit
                else handle_admin_request m h a ent wb
          ])
            ≡ ok out
          → Settles h out.0
      of_admin none e = handle_request-Settles h msg ent wb e
      of_admin (some a) e = elim (if-eq-ok (not (no_requests msg.requests)) _ _ e) [
        | inl (b, o) ↦ cc
        | inr (b, o) ↦ handle_admin_request-Settles m h a ent wb o
      ]

  apply_entry-Settles :
      (ent : Entry) (h : Handler Ranges) (wb : List Write) {out : Handler Ranges × List Write}
      → apply_entry m ent h wb ≡ ok out
      → Settles h out.0
  unfolding apply_entry
  apply_entry-Settles ent h wb e =
      let (msg, c, o) = >>=-eq-ok (command_of m ent ent.entry_type) _ e in
      apply_command-Settles h msg ent wb o

  apply_entries-Settles :
      (ents : List Entry) (h : Handler Ranges) (wb : List Write) {out : Handler Ranges × List Write}
      → apply_entries m ents h wb ≡ ok out
      → Settles h out.0
  unfolding apply_entries
  apply_entries-Settles [] h wb e = Settles-out_left e (Settles-refl refl refl)
  apply_entries-Settles (ent ∷ ents) h wb e = elim (if-eq-ok (is_empty ent.payload) _ _ e) [
    | inl (b, o) ↦ apply_entries-Settles ents h wb o
    | inr (b, o) ↦
        let (s, a, p) = >>=-eq-ok (apply_entry m ent h wb) _ o in
        let first = apply_entry-Settles ent h wb a in
        elim (if-eq-ok s.0.stopped _ _ p) [
          | inl (c, q) ↦ Settles-out_left q first
          | inr (c, q) ↦ Settles-trans first (apply_entries-Settles ents s.0 s.1 q)
        ]
  ]

  finish-Settles : (index : ℕ) (s : Handler Ranges × List Write) → Settles s.0 (finish m index s)
  unfolding finish
  finish-Settles index (h, wb) = elim (Bool-cases h.stopped) [
    | inl y ↦ subst (Settles h) (sym (if_true _ _ y)) (Settles-refl refl refl)
    | inr n ↦ subst (Settles h) (sym (if_false _ _ n)) (Settles-refl refl refl)
  ]

  -- Whatever entries are applied, where HandleCommitEnts does not panic: for each callback the calls
  -- that there have been and the proposals that still hold it are together not more than before, so
  -- that a callback that one proposal held is called at most once; and calls are only added.
  pub handle_commit_ents-Settles :
      (ents : List Entry) (h : Handler Ranges) {out : Handler Ranges}
      → handle_commit_ents m h ents ≡ ok out
      → Settles h out
  unfolding handle_commit_ents
  handle_commit_ents-Settles ents h {out = out} e = of_last (get_last? ents) e
    where
      of_last :
          (last : Option Entry)
          → (elim last [
            | none ↦ ok h
            | some l ↦ apply_entries m ents h [] >>= λ s. ok (finish m l.index s)
          ])
            ≡ ok out
          → Settles h out
      of_last none e = Settles-out e (Settles-refl refl refl)
      of_last (some l) e =
          let (s, a, o) = >>=-eq-ok (apply_entries m ents h []) (λ s. ok (finish m l.index s)) e in
          Settles-out o
            (Settles-trans (apply_entries-Settles ents h [] a) (finish-Settles l.index s))
