-- ===== src/Raft/Append/Split.antt =====
-- raft/raft.go: how handleAppendEntries looks for the leader's previous entry in its own log.
use tinykv.Prelude.{
  ℕ, zero, suc, ◌+◌, ◌-◌, ◌≤◌, ◌≡◌, refl, Bool, false, Option, none, some, List, [], ◌∷◌, arith,
  take, drop, get_elem?, leb, ◌==◌, if◌then◌else◌, dec_le, ℕ_discrete,
}
use tinykv.Raft.Pb.{Entry, Message}
use tinykv.Raft.Log.{RaftLog}
use tinykv.Raft.Log.Shape.{IsContig}
use tinykv.Raft.Append.{split_entries, split_log}

abbrev pub term_is : Option Entry → ℕ → Bool
term_is none t = false
term_is (some e) t = e.term == t

-- Whether the log, or the snapshot's last entry, has this term at this index.
abbrev pub holds : RaftLog → ℕ → ℕ → Bool
holds l i t =
    if i == l.last_idx_of_snapshot
    then l.last_term_of_snapshot == t
    else if leb i l.last_idx_of_snapshot
    then false
    else term_is (get_elem? l.entries (i - l.last_idx_of_snapshot - 1)) t

split_entries-below :
    (b i t : ℕ) (es : List Entry) → IsContig b es → i ≤ b → split_entries es i t ≡ none
unfolding split_entries
split_entries-below b i t [] c h = refl
split_entries-below b i t (e ∷ es) c h = ground (arith, split_entries-below (suc b) i t es c.1)

abbrev pub cut : List Entry → ℕ → Bool → Option (List Entry × List Entry)
cut es n hit = if hit then some (take n es, drop n es) else none

split_entries-at :
    (j b i t : ℕ) (es : List Entry)
    → i ≡ b + suc j
    → IsContig b es
    → split_entries es i t ≡ cut es (suc j) (term_is (get_elem? es j) t)
unfolding split_entries
split_entries-at j b i t [] q c = refl
split_entries-at zero b i t (e ∷ es) q c = ground (arith, split_entries-below (suc b) i t es c.1)
split_entries-at (suc j) b i t (e ∷ es) q c = ground (arith, split_entries-at j (suc b) i t es)

-- In a log without gaps the search finds the previous entry exactly when the log holds its index
-- and term, and it cuts the entries there.
pub split_log_lem :
    (l : RaftLog) (m : Message)
    → IsContig l.last_idx_of_snapshot l.entries
    → split_log l m ≡ cut l.entries (m.index - l.last_idx_of_snapshot) (holds l m.index m.log_term)
unfolding split_log
split_log_lem l m c = elim (dec_le m.index l.last_idx_of_snapshot) [
  | yes h ↦
      let z = split_entries-below l.last_idx_of_snapshot m.index m.log_term l.entries c h in
      elim (ℕ_discrete m.index l.last_idx_of_snapshot) [
        | yes e ↦ let n : m.index - l.last_idx_of_snapshot ≡ 0 = omega arith in ground (arith, z)
        | no e ↦ ground (arith, z)
      ]
  | no h ↦
      let n : m.index - l.last_idx_of_snapshot ≡ suc (m.index - l.last_idx_of_snapshot - 1) =
        omega arith in
      let s =
        split_entries-at (m.index - l.last_idx_of_snapshot - 1) l.last_idx_of_snapshot m.index
          m.log_term l.entries (omega arith) c in
      ground (arith, s)
]
