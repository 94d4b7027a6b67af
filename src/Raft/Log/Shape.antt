-- ===== src/Raft/Log/Shape.antt =====
-- raft/log.go: the shape of a log that RaftLog's comments describe, and the arithmetic of indices.
use tinykv.Prelude.{
  ℕ, zero, suc, ◌+◌, ◌-◌, ◌≤◌, ◌<◌, ◌≡◌, refl, ap, ◌∙◌, Option, none, some, List, [], ◌∷◌, ◌++◌,
  arith, length, take, drop, get_last?, get_elem?, dec_le, Result, ok, u64_mod, get_elem?-in_range,
  ◌>>=◌,
}
use tinykv.Raft.Pb.{Entry}
use tinykv.Raft.Log.{RaftLog, above, last_index, real_idx, term, collect, index_of_last}

-- The indices of the entries follow one another, from the one behind `b` on.
abbrev pub IsContig : ℕ → List Entry → Type 0
IsContig b [] = Unit {0}
IsContig b (e ∷ es) = (e.index ≡ suc b) × IsContig (suc b) es

-- snapshot <= applied <= committed <= last, and no index reaches 2^64 - 1.
pub record IsValid (l : RaftLog) : Type 0 where
  pub contig : IsContig l.last_idx_of_snapshot l.entries
  pub snapshot_le : l.last_idx_of_snapshot ≤ l.applied
  pub applied_le : l.applied ≤ l.committed
  pub committed_le : l.committed ≤ l.last_idx_of_snapshot + length l.entries
  pub stabled_ge : l.last_idx_of_snapshot ≤ l.stabled
  pub stabled_le : l.stabled ≤ l.last_idx_of_snapshot + length l.entries
  pub fits : l.last_idx_of_snapshot + length l.entries + 1 < u64_mod

index_of_last-contig :
    (d b : ℕ) (e : Entry) (es : List Entry)
    → IsContig b (e ∷ es)
    → index_of_last d (get_last? (e ∷ es)) ≡ b + length (e ∷ es)
unfolding index_of_last
index_of_last-contig d b e [] c = omega arith
index_of_last-contig d b e (f ∷ es) c = omega (arith, index_of_last-contig d (suc b) f es c.1)

last_index-cases :
    (b : ℕ) (es : List Entry) → IsContig b es → index_of_last b (get_last? es) ≡ b + length es
unfolding index_of_last
last_index-cases b [] c = omega arith
last_index-cases b (e ∷ es) c = index_of_last-contig b b e es c

-- The last index is where the indices end.
pub last_index-contig :
    (l : RaftLog)
    → IsContig l.last_idx_of_snapshot l.entries
    → last_index l ≡ l.last_idx_of_snapshot + length l.entries
unfolding last_index
last_index-contig l c = last_index-cases l.last_idx_of_snapshot l.entries c

pub IsContig-append :
    (b c : ℕ) (xs ys : List Entry)
    → IsContig b xs
    → c ≡ b + length xs
    → IsContig c ys
    → IsContig b (xs ++ ys)
IsContig-append b c [] ys hx e hy = let q : c ≡ b = omega arith in rw q at hy
IsContig-append b c (x ∷ xs) ys hx e hy =
    (hx.0, IsContig-append (suc b) c xs ys hx.1 (omega arith) hy)

pub IsContig-append_left : (b : ℕ) (xs ys : List Entry) → IsContig b (xs ++ ys) → IsContig b xs
IsContig-append_left b [] ys h = tt
IsContig-append_left b (x ∷ xs) ys h = (h.0, IsContig-append_left (suc b) xs ys h.1)

pub IsContig-append_right :
    (b c : ℕ) (xs ys : List Entry) → c ≡ b + length xs → IsContig b (xs ++ ys) → IsContig c ys
IsContig-append_right b c [] ys e h = let q : b ≡ c = omega arith in rw q at h
IsContig-append_right b c (x ∷ xs) ys e h = IsContig-append_right (suc b) c xs ys (omega arith) h.1

pub IsContig-drop :
    (n b c : ℕ) (es : List Entry)
    → c ≡ b + n
    → n ≤ length es
    → IsContig b es
    → IsContig c (drop n es)
IsContig-drop zero b c es e h i = let q : b ≡ c = omega arith in rw q at i
IsContig-drop (suc n) b c [] e h i = elim h [ ]
IsContig-drop (suc n) b c (x ∷ es) e h i =
    IsContig-drop n (suc b) c es (omega arith) (omega arith) i.1

-- The entry at a place has the index that belongs there.
pub index-contig :
    (b i : ℕ) (es : List Entry) {e : Entry}
    → IsContig b es
    → get_elem? es i ≡ some e
    → e.index ≡ b + i + 1
index-contig b i [] c h = cc
index-contig b zero (x ∷ es) c h = ground arith
index-contig b (suc i) (x ∷ es) c h = omega (arith, index-contig (suc b) i es c.1 h)

-- Behind the snapshot, and up to the last entry, `real_idx` finds the place.
pub real_idx-inside :
    (l : RaftLog) (i : ℕ)
    → l.last_idx_of_snapshot < i
    → i ≤ l.last_idx_of_snapshot + length l.entries
    → real_idx l i ≡ ok (some (i - l.last_idx_of_snapshot - 1))
unfolding real_idx
real_idx-inside l i h k = ground arith

pub real_idx-covered : (l : RaftLog) (i : ℕ) → i ≤ l.last_idx_of_snapshot → real_idx l i ≡ ok none
unfolding real_idx
real_idx-covered l i h = ground arith

-- In range, the place of an index is counted from the snapshot; -1 is moved up to 0.
pub real_idx-bind {ℓ} :
    {B : Type ℓ} (l : RaftLog) (i : ℕ) (f : Option ℕ → Result B) (g : ℕ → Result B)
    → i ≤ l.last_idx_of_snapshot + length l.entries
    → ((p : Option ℕ) → f p ≡ g (above p))
    → (real_idx l i >>= f) ≡ g (i - l.last_idx_of_snapshot)
real_idx-bind l i f g h e = elim (dec_le i l.last_idx_of_snapshot) [
  | yes k ↦ rw (real_idx-covered l i k) (e none ∙ ap g (omega arith))
  | no k ↦
      rw (real_idx-inside l i (omega arith) h)
        (e (some (i - l.last_idx_of_snapshot - 1)) ∙ ap g (omega arith))
]

-- `Term` does not panic up to the last index.
pub term_total :
    (l : RaftLog) (i : ℕ)
    → i ≤ l.last_idx_of_snapshot + length l.entries
    → (t : ℕ) × (term l i ≡ ok t)
unfolding term
term_total l i h = elim (dec_le i l.last_idx_of_snapshot) [
  | yes k ↦ (l.last_term_of_snapshot, rw (real_idx-covered l i k))
  | no k ↦
      let (e, found) =
        get_elem?-in_range l.entries (i - l.last_idx_of_snapshot - 1) (omega arith) in
      (e.term, rw (real_idx-inside l i (omega arith) h) (rw found))
]

pub drop-step :
    (es : List Entry) (i n : ℕ) {e : Entry}
    → get_elem? es i ≡ some e
    → take (suc n) (drop i es) ≡ e ∷ take n (drop (suc i) es)
drop-step [] i n h = cc
drop-step (x ∷ es) zero n h = ground arith
drop-step (x ∷ es) (suc i) n h = drop-step es i n h

-- The copying loop yields the slice, when the slice is there.
pub collect_lem :
    (es : List Entry) (from rounds : ℕ)
    → from + rounds ≤ length es
    → collect es from rounds ≡ ok (take rounds (drop from es))
unfolding collect
collect_lem es from zero h = refl
collect_lem es from (suc n) h =
    let (e, found) = get_elem?-in_range es from (omega arith) in
    rw (found, drop-step es from n found) (rw (collect_lem es (suc from) n (omega arith)))
