-- ===== src/Raft/Append/Merge.antt =====
-- raft/raft.go: how handleAppendEntries joins the leader's entries to the log behind the entry that
-- both have.
use tinykv.Prelude.{
  ℕ, zero, suc, ◌+◌, ◌-◌, ◌≤◌, ◌<◌, ◌≡◌, refl, ap, ◌∙◌, subst, none, some, List, [], ◌∷◌, ◌++◌,
  arith, length, get_elem?, get_elem?-lt, leb, Bool-cases, inl, inr, leb→le, leb→gt, Option-cases,
  length-append, min64, sub64, sub64-eq, u64_mod,
}
use tinykv.Raft.Pb.{Entry}
use tinykv.Raft.Log.{RaftLog}
use tinykv.Raft.Log.Shape.{
  IsContig, IsValid, IsContig-append, IsContig-append_left, IsContig-append_right,
}
use tinykv.Raft.Append.{first_conflict, merge_entries, merge_conflict}

-- The first list begins with entries of the second one's indices and terms.
abbrev pub Extends : List Entry → List Entry → Type 0
Extends ts [] = Unit {0}
Extends [] (e ∷ es) = ⊥
Extends (t ∷ ts) (e ∷ es) = (t.index ≡ e.index) × (t.term ≡ e.term) × Extends ts es

pub Extends-refl : (es : List Entry) → Extends es es
Extends-refl [] = tt
Extends-refl (e ∷ es) = (refl, refl, Extends-refl es)

first_conflict-nil : (ds : List Entry) → first_conflict ds [] ≡ none
unfolding first_conflict
first_conflict-nil [] = refl
first_conflict-nil (d ∷ ds) = refl

-- Without a conflict, the longer list extends the shorter one.
first_conflict-none :
    (ds es : List Entry) → first_conflict ds es ≡ none → length es ≤ length ds → Extends ds es
unfolding first_conflict
first_conflict-none ds [] h k = tt
first_conflict-none [] (e ∷ es) h k = elim k [ ]
first_conflict-none (d ∷ ds) (e ∷ es) h k = ground (arith, first_conflict-none ds es)

-- A conflict is an old entry at an index that the new entries reach.
first_conflict-some :
    (b : ℕ) (ds es : List Entry) (d : Entry)
    → IsContig b ds
    → first_conflict ds es ≡ some d
    → (b < d.index) × (d.index ≤ b + length es) × (d.index ≤ b + length ds)
unfolding first_conflict
first_conflict-some b [] es x c h = cc
first_conflict-some b (d ∷ ds) [] x c h = cc
first_conflict-some b (d ∷ ds) (e ∷ es) x c h =
    ground (arith, first_conflict-some (suc b) ds es x c.1)

-- Without a conflict, the new entries have the old ones' terms as far as both reach.
first_conflict-none_agrees :
    (ds es : List Entry) (k : ℕ) (d : Entry)
    → first_conflict ds es ≡ none
    → get_elem? ds k ≡ some d
    → k < length es
    → (x : Entry) × (get_elem? es k ≡ some x) × (x.term ≡ d.term)
unfolding first_conflict
first_conflict-none_agrees [] es k d h f lt = absurd cc
first_conflict-none_agrees (y ∷ ds) [] k d h f lt = elim lt [ ]
first_conflict-none_agrees (y ∷ ds) (e ∷ es) zero d h f lt = (e, refl, ground arith)
first_conflict-none_agrees (y ∷ ds) (e ∷ es) (suc k) d h f lt =
    first_conflict-none_agrees ds es k d (ground arith) f (omega arith)

-- Before the first conflict, the new entries have the old ones' terms.
first_conflict-some_agrees :
    (b : ℕ) (ds es : List Entry) (c : Entry) (k : ℕ) (d : Entry)
    → IsContig b ds
    → first_conflict ds es ≡ some c
    → get_elem? ds k ≡ some d
    → b + k + 1 < c.index
    → (x : Entry) × (get_elem? es k ≡ some x) × (x.term ≡ d.term)
unfolding first_conflict
first_conflict-some_agrees b [] es c k d i h f lt = absurd cc
first_conflict-some_agrees b (y ∷ ds) [] c k d i h f lt = absurd cc
first_conflict-some_agrees b (y ∷ ds) (e ∷ es) c zero d i h f lt = (e, refl, ground arith)
first_conflict-some_agrees b (y ∷ ds) (e ∷ es) c (suc k) d i h f lt =
    first_conflict-some_agrees (suc b) ds es c k d i.1 (ground arith) f (omega arith)

-- The entries behind the common part that are committed are still there, up to index and term.
abbrev pub KeepsCommitted : RaftLog → List Entry → List Entry → List Entry → Type 0
KeepsCommitted l kept dropped tail =
    (k : ℕ) (d : Entry)
    → get_elem? dropped k ≡ some d
    → l.last_idx_of_snapshot + length kept + k + 1 ≤ l.committed
    → (x : Entry) × (get_elem? tail k ≡ some x) × (x.term ≡ d.term)

-- The log after the merge: valid, with the part that both have in front, and the leader's entries
-- behind it.
pub record Merged (l l' : RaftLog) (kept dropped new : List Entry) : Type 0 where
  pub valid : IsValid l'
  pub last_ge :
      l.last_idx_of_snapshot + length kept + length new
      ≤ l'.last_idx_of_snapshot + length l'.entries
  pub tail : List Entry
  pub entries : l'.entries ≡ kept ++ tail
  pub extends : Extends tail new
  pub keeps : KeepsCommitted l kept dropped tail
  pub committed : l'.committed ≡ l.committed
  pub snapshot : l'.last_idx_of_snapshot ≡ l.last_idx_of_snapshot

-- Raft's leader completeness, as far as one message shows it: no committed entry is in conflict.
abbrev pub NoCommittedConflict : RaftLog → List Entry → List Entry → Type 0
NoCommittedConflict l dropped new =
    (d : Entry) → first_conflict dropped new ≡ some d → l.committed < d.index

-- The log with another tail, and the stable mark at `stabled`.
abbrev with_tail : RaftLog → ℕ → List Entry → RaftLog
with_tail l stabled entries = record l { stabled = stabled; entries = entries }

module _ (l : RaftLog) (kept dropped new : List Entry) (v : IsValid l)
    (split : l.entries ≡ kept ++ dropped) where
  total : length l.entries ≡ length kept + length dropped
  total = ap length split ∙ length-append kept dropped

  IsContig-kept : IsContig l.last_idx_of_snapshot kept
  IsContig-kept =
      IsContig-append_left l.last_idx_of_snapshot kept dropped
        (subst (IsContig l.last_idx_of_snapshot) split v.contig)

  IsContig-dropped : IsContig (l.last_idx_of_snapshot + length kept) dropped
  IsContig-dropped =
      IsContig-append_right l.last_idx_of_snapshot _ kept dropped refl
        (subst (IsContig l.last_idx_of_snapshot) split v.contig)

  with_tail-Merged :
      (stabled : ℕ) (tail : List Entry)
      → IsContig (l.last_idx_of_snapshot + length kept) tail
      → Extends tail new
      → KeepsCommitted l kept dropped tail
      → length new ≤ length tail
      → l.committed ≤ l.last_idx_of_snapshot + length kept + length tail
      → l.last_idx_of_snapshot ≤ stabled
      → stabled ≤ l.last_idx_of_snapshot + length kept + length tail
      → l.last_idx_of_snapshot + length kept + length tail + 1 < u64_mod
      → Merged l (with_tail l stabled (kept ++ tail)) kept dropped new
  with_tail-Merged stabled tail c x keeps n h lo hi f =
      let n' : length (kept ++ tail) ≡ length kept + length tail = length-append kept tail in
      record {
        valid = record {
          contig = IsContig-append l.last_idx_of_snapshot _ kept tail IsContig-kept refl c;
          snapshot_le = v.snapshot_le;
          applied_le = v.applied_le;
          committed_le = omega arith;
          stabled_ge = lo;
          stabled_le = omega arith;
          fits = omega arith;
        };
        last_ge = omega arith;
        tail = tail;
        entries = refl;
        extends = x;
        keeps = keeps;
        committed = refl;
        snapshot = refl;
      }

  module _ (c : IsContig (l.last_idx_of_snapshot + length kept) new)
      (agree : NoCommittedConflict l dropped new)
      (f : l.last_idx_of_snapshot + length kept + length new + 1 < u64_mod) where
    keep_dropped :
        first_conflict dropped new ≡ none
        → length new ≤ length dropped
        → Merged l (with_tail l l.stabled (kept ++ dropped)) kept dropped new
    keep_dropped e h =
        with_tail-Merged l.stabled dropped IsContig-dropped (first_conflict-none dropped new e h)
          (λ k d found j. (d, found, refl)) h (omega (arith, total)) v.stabled_ge
          (omega (arith, total)) (omega (arith, total))

    take_new :
        first_conflict dropped new ≡ none
        → length dropped ≤ length new
        → Merged l (with_tail l l.stabled (kept ++ new)) kept dropped new
    take_new e h =
        with_tail-Merged l.stabled new c (Extends-refl new)
          (λ k d found j.
            first_conflict-none_agrees dropped new k d e found
              (omega (arith, get_elem?-lt dropped k found)))
          (omega arith) (omega (arith, total)) v.stabled_ge (omega (arith, total)) f

    cut_conflict :
        (d : Entry)
        → first_conflict dropped new ≡ some d
        → Merged l (with_tail l (min64 l.stabled (sub64 d.index 1)) (kept ++ new)) kept dropped new
    cut_conflict d e =
        let b =
          first_conflict-some (l.last_idx_of_snapshot + length kept) dropped new d IsContig-dropped
            e in
        let s : sub64 d.index 1 ≡ d.index - 1 =
          sub64-eq d.index 1 (omega arith) (omega (arith, total)) in
        let a : l.committed < d.index = agree d e in
        with_tail-Merged (min64 l.stabled (sub64 d.index 1)) new c (Extends-refl new)
          (λ k x found j.
            first_conflict-some_agrees (l.last_idx_of_snapshot + length kept) dropped new d k x
              IsContig-dropped e found (omega (arith, a)))
          (omega arith) (omega arith) (unfold min64 in ground arith) (unfold min64 in ground arith)
          f

-- A merge of contiguous new entries that conflict with nothing committed leaves a valid log, with
-- the common part in front and the new entries, up to index and term, behind it.
pub merge_entries-Merged :
    (l : RaftLog) (kept dropped new : List Entry)
    → IsValid l
    → l.entries ≡ kept ++ dropped
    → IsContig (l.last_idx_of_snapshot + length kept) new
    → NoCommittedConflict l dropped new
    → l.last_idx_of_snapshot + length kept + length new + 1 < u64_mod
    → Merged l (merge_entries l kept dropped new) kept dropped new
unfolding merge_entries
merge_entries-Merged l kept dropped [] v split c agree f =
    keep_dropped l kept dropped [] v split c agree f (first_conflict-nil dropped) (omega arith)
merge_entries-Merged l kept dropped (e ∷ es) v split c agree f =
    elim (Option-cases (first_conflict dropped (e ∷ es))) [
      | inl z ↦ elim (Bool-cases (leb (length dropped) (suc (length es)))) [
        | inl short ↦
            rw (z, merge_conflict)
              (rw short (take_new l kept dropped (e ∷ es) v split c agree f z (leb→le _ _ short)))
        | inr long ↦
            rw (z, merge_conflict)
              (rw long (
                keep_dropped l kept dropped (e ∷ es) v split c agree f z
                  (omega (arith, leb→gt _ _ long))))
      ]
      | inr (d, z) ↦
          rw (z, merge_conflict) (cut_conflict l kept dropped (e ∷ es) v split c agree f d z)
    ]
