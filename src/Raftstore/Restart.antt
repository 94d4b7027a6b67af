-- ===== src/Raftstore/Restart.antt =====
-- kv/raftstore/peer_storage.go: what a restart finds of the entries that SaveReadyState was given.
use tinykv.Prelude.{
  ◌+◌, ◌≤◌, ◌<◌, ◌≡◌, ◌⊎◌, refl, ap, ◌∙◌, arith, true, false, not, Bool-cases, if_true, if_false,
  ltb, Option, none, some, List, ◌∷◌, ◌++◌, length, length-append, get_last?, u64_mod, inl, inr, ok,
}
use tinykv.Raft.Pb.{Entry, HardState}
use tinykv.Raftstore.{
  PeerStorage, RaftLocalState, append, is_empty_hard_state, save_ready_state, restart, last_index,
  set_entries,
}
use tinykv.Raftstore.Log.{Represents, Contiguous, append-Represents}

append-kept :
    (ps : PeerStorage) (es : List Entry)
    → ((append ps es).stored ≡ ps.stored)
      × ((append ps es).applied_index ≡ ps.applied_index)
      × ((append ps es).truncated_index ≡ ps.truncated_index)
unfolding append
append-kept ps es = of_last (get_last? es)
  where
    of_last :
        (m : Option Entry)
        → let q : PeerStorage = elim m [
          | none ↦ record ps { raft_log = set_entries ps.raft_log es }
          | some e ↦ record ps {
            raft_log = set_entries ps.raft_log es;
            raft_state = record ps.raft_state { last_index = e.index; last_term = e.term };
          }
        ] in
          (q.stored ≡ ps.stored)
          × (q.applied_index ≡ ps.applied_index)
          × (q.truncated_index ≡ ps.truncated_index)
    of_last none = (refl, refl, refl)
    of_last (some e) = (refl, refl, refl)

-- Contiguous entries with room below 2^64 are saved behind a kept part of the log, which has all
-- applied ones, and what was last stored has them too. If the Ready has a hard state, a restarted
-- peer has the log with the entries. If it has none, the restarted peer's log ends where it ended
-- when a hard state was last saved, whatever the entries.
pub restart-save_ready_state :
    (ps : PeerStorage) (kept dropped : List Entry) (e : Entry) (es : List Entry) (hs : HardState)
    → Represents ps (kept ++ dropped)
    → Contiguous (ps.truncated_index + length kept) (e ∷ es)
    → ps.truncated_index + length kept + length (e ∷ es) + 1 < u64_mod
    → ps.applied_index ≤ ps.truncated_index + length kept
    → ps.applied_index ≤ ps.stored.last_index
    → ((is_empty_hard_state hs ≡ false)
        × ((ps' : PeerStorage) × (restart (save_ready_state ps (e ∷ es) hs) ≡ ok ps')
            × Represents ps' (kept ++ e ∷ es)))
      ⊎ ((is_empty_hard_state hs ≡ true)
          × ((ps' : PeerStorage) × (restart (save_ready_state ps (e ∷ es) hs) ≡ ok ps')
              × (last_index ps' ≡ ps.stored.last_index)))
unfolding save_ready_state restart last_index
restart-save_ready_state ps kept dropped e es hs r c room k l =
    let p = append ps (e ∷ es) in
    let kept3 = append-kept ps (e ∷ es) in
    let rep = (append-Represents ps kept dropped e es r c room).0 in
    elim (Bool-cases (is_empty_hard_state hs)) [
      | inl empty ↦
          let early : ltb p.stored.last_index p.applied_index ≡ false =
            ground (arith, ap RaftLocalState.last_index kept3.0, kept3.1, l) in
          inr (
            empty,
            (
              record p { raft_state = p.stored },
              ap restart (if_false _ _ (ap not empty)) ∙ if_false _ _ early,
              ap RaftLocalState.last_index kept3.0,
            ),
          )
      | inr full ↦
          let early : ltb p.raft_state.last_index p.applied_index ≡ false =
            ground (arith, rep.ends, kept3, k, length-append kept (e ∷ es)) in
          let state = record p.raft_state { hard_state = hs } in
          let q : PeerStorage = record p { raft_state = state; stored = state } in
          inl (
            full,
            (
              q,
              ap restart (if_true _ _ (ap not full)) ∙ if_false _ _ early,
              record { there = rep.there; ends = rep.ends; room = rep.room },
            ),
          )
    ]
