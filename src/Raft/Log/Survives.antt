-- ===== src/Raft/Log/Survives.antt =====
-- raft/log.go: what it means that the committed entries are still in the log.
use tinykv.Prelude.{
  ℕ, ◌+◌, ◌-◌, ◌≤◌, ◌<◌, ◌≡◌, refl, sym, ap, ◌∙◌, arith, some, List, ◌++◌, length, get_elem?,
  get_elem?-in_range, get_elem?-out_of_range, get_elem?-append_left, dec_le, ok,
}
use tinykv.Raft.Pb.{Entry}
use tinykv.Raft.Log.{RaftLog, term, real_idx}
use tinykv.Raft.Log.Shape.{IsValid, real_idx-inside}

-- At every committed index behind the new log's snapshot the new log has the old one's term.
abbrev pub Survives : RaftLog → RaftLog → Type 0
Survives l l' = (i : ℕ) → l'.last_idx_of_snapshot < i → i ≤ l.committed → term l' i ≡ term l i

term-found :
    (l : RaftLog) (i j : ℕ) (e : Entry)
    → l.last_idx_of_snapshot < i
    → j ≡ i - l.last_idx_of_snapshot - 1
    → get_elem? l.entries j ≡ some e
    → term l i ≡ ok e.term
unfolding term
term-found l i j e h same found = elim (dec_le (length l.entries) j) [
  | yes out ↦
      let gone = get_elem?-out_of_range l.entries j out in absurd (ground (arith, gone, found))
  | no within ↦
      let here = sym (ap (get_elem? l.entries) same) ∙ found in
      rw (real_idx-inside l i h (omega arith)) (rw here)
]

-- It is enough to compare the entries, place by place.
pub Survives-entries :
    (l l' : RaftLog)
    → IsValid l
    → l'.last_idx_of_snapshot ≡ l.last_idx_of_snapshot
    → ((j : ℕ) (e : Entry)
        → get_elem? l.entries j ≡ some e
        → l.last_idx_of_snapshot + j + 1 ≤ l.committed
        → (x : Entry) × (get_elem? l'.entries j ≡ some x) × (x.term ≡ e.term))
    → Survives l l'
Survives-entries l l' v same agree i h k =
    let j : ℕ = i - l.last_idx_of_snapshot - 1 in
    let (e, found) = get_elem?-in_range l.entries j (omega (arith, v.committed_le)) in
    let (x, there, t) = agree j e found (omega arith) in
    term-found l' i j x h (omega arith) there
    ∙ ap ok t
    ∙ sym (term-found l i j e (omega arith) refl found)

-- Entries are only added.
pub Survives-append :
    (l l' : RaftLog) (extra : List Entry)
    → IsValid l
    → l'.last_idx_of_snapshot ≡ l.last_idx_of_snapshot
    → l'.entries ≡ l.entries ++ extra
    → Survives l l'
Survives-append l l' extra v same more = Survives-entries l l' v same λ j e found h. (
  e,
  ap (λ es. get_elem? es j) more
      ∙ get_elem?-append_left l.entries extra j (omega (arith, v.committed_le))
      ∙ found,
  refl,
)

-- Only the commit index moves.
pub Survives-committed : (l : RaftLog) (c : ℕ) → Survives l (record l { committed = c })
unfolding term real_idx
Survives-committed l c i h k = refl
