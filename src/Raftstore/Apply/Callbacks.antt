-- ===== src/Raftstore/Apply/Callbacks.antt =====
-- kv/raftstore/peer_msg_handler.go: the callbacks that are called while committed entries are applied.
use tinykv.Prelude.{
  ◌≡◌, refl, sym, ap, subst, arith, Bool, true, false, not, ◌||◌, Bool-cases, if_true, if_false,
  ◌==◌, if◌then◌else◌, Option, none, some, List, [], ◌∷◌, inl, inr, Result, ok, panic, explicit,
  nil_dereference, >>=-eq-ok, if-eq-ok, ok-injective,
}
use tinykv.Raft.Pb.{Entry}
use tinykv.Raftstore.Cmd.{Request, RegionEpoch, RaftCmdRequest}
use tinykv.Raftstore.Engine.{Write}
use tinykv.Raftstore.Apply.{
  Proposal, responses, Handler, done, response, respond, handle_proposal, execute_request,
  and_batch, in_range, in_version, check_key_range, check_region_version, pop_proposal,
  handle_request, epoch_mismatch, key_not_in_region, get_key, request_writes, is_nil,
}
use tinykv.Raftstore.Engine.{write_to_db}
use tinykv.Raftstore.Check.{check_key_in_region}
use tinykv.Raftstore.Apply.Pop.{
  Settles, Settles-refl, Settles-trans, Settles-out, Settles-out_left, Pops, pop_proposal-Pops,
  done_if-Settles,
}
use tinykv.Scheduler.Regions.Keys.{is_empty}

module _ {R : Type 0} where
  respond-Settles :
      (req : Request) (ent : Entry) (h : Handler R) (s : Handler R × Option Proposal)
      {out : Handler R}
      → Pops h s
      → respond req ent s ≡ ok out
      → Settles h out
  unfolding respond done
  respond-Settles req ent h (g, none) p e =
      Settles-out e (record { owed = λ cb. omega (arith, p.owed cb); kept = p.kept })
  respond-Settles req ent h (g, some q) p e = elim (if-eq-ok (not (q.index == ent.index)) _ _ e) [
    | inl x ↦ absurd (cc)
    | inr x ↦
        let (rs, r, o) = >>=-eq-ok (response g req) (λ rs. ok (done g q.cb (responses rs))) x.1 in
        Settles-out o
          (record { owed = λ cb. omega (arith, p.owed cb); kept = λ cb. omega (arith, p.kept cb) })
  ]

  execute_request-Settles :
      (req : Request) (ent : Entry) (wb : List Write) (h : Handler R) {out : Handler R}
      → execute_request req ent wb h ≡ ok out
      → Settles h out
  unfolding execute_request handle_proposal
  execute_request-Settles req ent wb h e =
      let g = record h { kv = write_to_db (request_writes req wb) h.kv } in
      let p =
        respond-Settles req ent g (pop_proposal g ent.term ent.index)
          (pop_proposal-Pops g ent.term ent.index) e in
      record { owed = p.owed; kept = p.kept }

  check_key_range-Settles :
      (h : Handler R) (ent : Entry) (req : Request) → Settles h (check_key_range h ent req).0
  unfolding check_key_range
  check_key_range-Settles h ent req =
      elim (Bool-cases (is_empty (get_key req) || check_key_in_region (get_key req) h.region)) [
        | inl y ↦
            subst (λ (s : Handler R × Bool). Settles h s.0) (sym (if_true _ _ y))
              (Settles-refl refl refl)
        | inr n ↦
            subst (λ (s : Handler R × Bool). Settles h s.0) (sym (if_false _ _ n))
              (done_if-Settles h (pop_proposal h ent.term ent.index)
                (key_not_in_region (get_key req) h.region) (pop_proposal-Pops h ent.term ent.index))
      ]

  check_region_version-Settles :
      (h : Handler R) (ent : Entry) (epoch : RegionEpoch)
      → Settles h (check_region_version h ent epoch).0
  unfolding check_region_version
  check_region_version-Settles h ent epoch =
      elim (Bool-cases (not (h.region.region_epoch.version == epoch.version))) [
        | inl y ↦
            subst (λ (s : Handler R × Bool). Settles h s.0) (sym (if_true _ _ y))
              (done_if-Settles h (pop_proposal h ent.term ent.index) (epoch_mismatch h.region)
                (pop_proposal-Pops h ent.term ent.index))
        | inr n ↦
            subst (λ (s : Handler R × Bool). Settles h s.0) (sym (if_false _ _ n))
              (Settles-refl refl refl)
      ]

  and_batch-eq-ok :
      (wb : List Write) (r : Result (Handler R)) {out : Handler R × List Write}
      → and_batch wb r ≡ ok out
      → r ≡ ok out.0
  and_batch-eq-ok wb (ok h) e = ap (λ x. ok x.0) (ok-injective e)
  and_batch-eq-ok wb (panic why) e = cc

  in_range-Settles :
      (req : Request) (ent : Entry) (wb : List Write) (s : Handler R × Bool)
      {out : Handler R × List Write}
      → in_range req ent wb s ≡ ok out
      → Settles s.0 out.0
  unfolding in_range
  in_range-Settles req ent wb (h, false) e = Settles-out_left e (Settles-refl refl refl)
  in_range-Settles req ent wb (h, true) e =
      execute_request-Settles req ent wb h (and_batch-eq-ok [] (execute_request req ent wb h) e)

  in_version-Settles :
      (req : Request) (ent : Entry) (wb : List Write) (s : Handler R × Bool)
      {out : Handler R × List Write}
      → in_version req ent wb s ≡ ok out
      → Settles s.0 out.0
  unfolding in_version
  in_version-Settles req ent wb (h, false) e = Settles-out_left e (Settles-refl refl refl)
  in_version-Settles req ent wb (h, true) e =
      Settles-trans (check_key_range-Settles h ent req)
        (in_range-Settles req ent wb (check_key_range h ent req) e)

  pub handle_request-Settles :
      (h : Handler R) (msg : RaftCmdRequest) (ent : Entry) (wb : List Write)
      {out : Handler R × List Write}
      → handle_request h msg ent wb ≡ ok out
      → Settles h out.0
  unfolding handle_request
  handle_request-Settles h msg ent wb {out = out} e = one msg.requests msg.header e
    where
      one :
          (rs : List Request) (header : Option RegionEpoch)
          → (elim rs [
            | [] ↦ panic explicit
            | req ∷ others ↦ if not (is_nil others) then panic explicit else elim header [
              | none ↦ panic nil_dereference
              | some epoch ↦ in_version req ent wb (check_region_version h ent epoch)
            ]
          ])
            ≡ ok out
          → Settles h out.0
      one [] header e = cc
      one (req ∷ q ∷ others) header e = cc
      one (req ∷ []) none e = cc
      one (req ∷ []) (some epoch) e =
          Settles-trans (check_region_version-Settles h ent epoch)
            (in_version-Settles req ent wb (check_region_version h ent epoch) e)
