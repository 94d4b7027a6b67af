-- ===== src/Raftstore/Log.antt =====
-- kv/raftstore/peer_storage.go: what is appended is what raft reads back.
use tinykv.Prelude.{
  ℕ, ◌+◌, ◌-◌, ◌≤◌, ◌<◌, ◌≡◌, refl, sym, ap, ◌∙◌, subst, arith, true, false, not, if◌then◌else◌,
  if_true, if_false, ltb, leb, ◌==◌, Option, none, some, List, [], ◌∷◌, ◌++◌, length, length-append,
  get_last?, add64, add64-eq, u64_mod,
}
use tinykv.Raft.Pb.{Entry}
use tinykv.Raftstore.{
  Slot, holds, PeerStorage, value, error, RangeError, check_range, slots, scan, cons_entry,
  all_read, entries, set_entry, set_entries, append,
}

-- The entries are in the engine behind the index b, one after another.
abbrev pub Stored : (ℕ → Slot) → ℕ → List Entry → Type 0
Stored log b [] = Unit {0}
Stored log b (e ∷ es) = (log (b + 1) ≡ holds e) × (e.index ≡ b + 1) × Stored log (b + 1) es

abbrev pub Contiguous : ℕ → List Entry → Type 0
Contiguous b [] = Unit {0}
Contiguous b (e ∷ es) = (e.index ≡ b + 1) × Contiguous (b + 1) es

-- The log of the peer: the entries behind the truncated ones.
pub record Represents (ps : PeerStorage) (log : List Entry) : Type 0 where
  pub there : Stored ps.raft_log ps.truncated_index log
  pub ends : ps.raft_state.last_index ≡ ps.truncated_index + length log
  pub room : ps.raft_state.last_index + 1 < u64_mod

Stored-append :
    (log : ℕ → Slot) (b : ℕ) (xs ys : List Entry)
    → Stored log b (xs ++ ys)
    → Stored log b xs × Stored log (b + length xs) ys
Stored-append log b [] ys h = (tt, subst (λ c. Stored log c ys) (omega arith) h)
Stored-append log b (x ∷ xs) ys h =
    let (front, back) = Stored-append log (b + 1) xs ys (h.2) in
    ((h.0, h.1, front), subst (λ c. Stored log c ys) (omega arith) back)

append-Stored :
    (log : ℕ → Slot) (b : ℕ) (xs ys : List Entry)
    → Stored log b xs
    → Stored log (b + length xs) ys
    → Stored log b (xs ++ ys)
append-Stored log b [] ys h k = subst (λ c. Stored log c ys) (omega arith) k
append-Stored log b (x ∷ xs) ys h k =
    (h.0, h.1, append-Stored log (b + 1) xs ys h.2 (subst (λ c. Stored log c ys) (omega arith) k))

scan-Stored :
    (log : ℕ → Slot) (b : ℕ) (es : List Entry)
    → Stored log b es
    → b + length es + 1 < u64_mod
    → scan (b + 1) (slots log (b + 1) (length es)) ≡ some es
unfolding scan slots cons_entry
scan-Stored log b [] h k = refl
scan-Stored log b (e ∷ es) h k =
    let rest = slots log (b + 1 + 1) (length es) in
    let next : add64 (b + 1) 1 ≡ b + 1 + 1 = add64-eq (b + 1) 1 (omega (arith, k)) in
    let mine : not (e.index == b + 1) ≡ false = ground (arith, h) in
    ap (λ s. scan (b + 1) (s ∷ rest)) h.0
    ∙ if_false _ _ mine
    ∙ ap (cons_entry e)
        (ap (λ n. scan n rest) next ∙ scan-Stored log (b + 1) es h.2 (omega (arith, k)))

read_all :
    (b : ℕ) (es : List Entry) (read : Option (List Entry))
    → read ≡ some es
    → (if b + 1 == b + 1 + length es then value [] else all_read (b + 1 + length es - (b + 1)) read)
      ≡ value es
unfolding all_read
read_all b [] read q =
    let none_asked : (b + 1 == b + 1 + 0) ≡ true = ground arith in if_true _ _ none_asked
read_all b (e ∷ es) read q =
    let some_asked : (b + 1 == b + 1 + length (e ∷ es)) ≡ false = ground arith in
    let complete : (length (e ∷ es) == b + 1 + length (e ∷ es) - (b + 1)) ≡ true = ground arith in
    if_false _ _ some_asked
    ∙ ap (all_read (b + 1 + length (e ∷ es) - (b + 1))) q
    ∙ if_true _ _ complete

entries-of :
    (ps : PeerStorage) (b : ℕ) (es : List Entry)
    → Stored ps.raft_log b es
    → ps.truncated_index ≤ b
    → b + length es ≤ ps.raft_state.last_index
    → ps.raft_state.last_index + 1 < u64_mod
    → entries ps (b + 1) (b + 1 + length es) ≡ value es
unfolding entries check_range all_read
entries-of ps b es h k l m =
    let last = add64-eq ps.raft_state.last_index 1 m in
    let ordered : ltb (b + 1 + length es) (b + 1) ≡ false = ground arith in
    let kept : leb (b + 1) ps.truncated_index ≡ false = ground (arith, k) in
    let inside : ltb (add64 ps.raft_state.last_index 1) (b + 1 + length es) ≡ false =
      ground (arith, l, last) in
    let range : check_range ps (b + 1) (b + 1 + length es) ≡ none =
      if_false _ _ ordered ∙ if_false _ _ kept ∙ if_false _ _ inside in
    let count : b + 1 + length es - (b + 1) ≡ length es = omega arith in
    let read : scan (b + 1) (slots ps.raft_log (b + 1) (b + 1 + length es - (b + 1))) ≡ some es =
      ap (λ n. scan (b + 1) (slots ps.raft_log (b + 1) n)) count
      ∙ scan-Stored ps.raft_log b es h (omega (arith, l, m)) in
    ap
      (λ (r : Option RangeError). elim r [
        | some e ↦ error e
        | none ↦
            if b + 1 == b + 1 + length es
            then value []
            else all_read (b + 1 + length es - (b + 1))
                (scan (b + 1) (slots ps.raft_log (b + 1) (b + 1 + length es - (b + 1))))
      ])
      range
    ∙ read_all b es (scan (b + 1) (slots ps.raft_log (b + 1) (b + 1 + length es - (b + 1)))) read

-- Of a log of three parts Entries reads the middle one, whatever it is, between its indices.
pub entries-Represents :
    (ps : PeerStorage) (front wanted back : List Entry)
    → Represents ps (front ++ (wanted ++ back))
    → let low = ps.truncated_index + length front + 1 in
      entries ps low (low + length wanted) ≡ value wanted
entries-Represents ps front wanted back r =
    let behind = (Stored-append ps.raft_log ps.truncated_index front (wanted ++ back) r.there).1 in
    let middle =
      (Stored-append ps.raft_log (ps.truncated_index + length front) wanted back behind).0 in
    entries-of ps (ps.truncated_index + length front) wanted middle (omega arith)
      (omega (arith, r.ends, length-append front (wanted ++ back), length-append wanted back))
      r.room

set_entries-before :
    (log : ℕ → Slot) (c i : ℕ) (es : List Entry)
    → Contiguous c es
    → i ≤ c
    → set_entries log es i ≡ log i
unfolding set_entries set_entry
set_entries-before log c i [] h k = refl
set_entries-before log c i (e ∷ es) h k =
    let other : (i == e.index) ≡ false = ground (arith, h.0, k) in
    set_entries-before (set_entry log e) (c + 1) i es h.1 (omega (arith, k)) ∙ if_false _ _ other

set_entries-Stored :
    (log : ℕ → Slot) (b : ℕ) (es : List Entry) → Contiguous b es → Stored (set_entries log es) b es
unfolding set_entries set_entry
set_entries-Stored log b [] h = tt
set_entries-Stored log b (e ∷ es) h =
    let mine : (b + 1 == e.index) ≡ true = ground (arith, h.0) in
    (
      set_entries-before (set_entry log e) (b + 1) (b + 1) es h.1 (omega arith) ∙ if_true _ _ mine,
      h.0,
      set_entries-Stored (set_entry log e) (b + 1) es h.1,
    )

Stored-before :
    (log : ℕ → Slot) (b c : ℕ) (xs es : List Entry)
    → Stored log b xs
    → b + length xs ≤ c
    → Contiguous c es
    → Stored (set_entries log es) b xs
Stored-before log b c [] es h k d = tt
Stored-before log b c (x ∷ xs) es h k d = (
  set_entries-before log c (b + 1) es d (omega (arith, k)) ∙ h.0,
  h.1,
  Stored-before log (b + 1) c xs es h.2 (omega (arith, k)) d,
)

last-Contiguous :
    (b : ℕ) (e : Entry) (es : List Entry)
    → Contiguous b (e ∷ es)
    → (l : Entry) × (get_last? (e ∷ es) ≡ some l) × (l.index ≡ b + length (e ∷ es))
last-Contiguous b e [] h = (e, refl, omega (arith, h.0))
last-Contiguous b e (f ∷ es) h =
    let (l, q, i) = last-Contiguous (b + 1) f es h.1 in (l, q, omega (arith, i))

set_entries-behind :
    (log : ℕ → Slot) (c i : ℕ) (es : List Entry)
    → Contiguous c es
    → c + length es < i
    → set_entries log es i ≡ log i
unfolding set_entries set_entry
set_entries-behind log c i [] h k = refl
set_entries-behind log c i (e ∷ es) h k =
    let other : (i == e.index) ≡ false = ground (arith, h.0, k) in
    set_entries-behind (set_entry log e) (c + 1) i es h.1 (omega (arith, k)) ∙ if_false _ _ other

append-raft_log :
    (ps : PeerStorage) (es : List Entry) → (append ps es).raft_log ≡ set_entries ps.raft_log es
unfolding append
append-raft_log ps es = ground arith

append-Represents_log :
    (ps : PeerStorage) (kept dropped : List Entry) (e : Entry) (es : List Entry)
    → Represents ps (kept ++ dropped)
    → Contiguous (ps.truncated_index + length kept) (e ∷ es)
    → ps.truncated_index + length kept + length (e ∷ es) + 1 < u64_mod
    → Represents (append ps (e ∷ es)) (kept ++ e ∷ es)
unfolding append
append-Represents_log ps kept dropped e es r c room =
    let (l, q, i) = last-Contiguous (ps.truncated_index + length kept) e es c in
    let log = set_entries ps.raft_log (e ∷ es) in
    let front = (Stored-append ps.raft_log ps.truncated_index kept dropped r.there).0 in
    let there : Stored log ps.truncated_index (kept ++ e ∷ es) =
      append-Stored log ps.truncated_index kept (e ∷ es)
        (Stored-before ps.raft_log ps.truncated_index (ps.truncated_index + length kept) kept
          (e ∷ es) front (omega arith) c)
        (set_entries-Stored ps.raft_log (ps.truncated_index + length kept) (e ∷ es) c) in
    subst
      (λ (m : Option Entry).
        Represents
          (elim m [
            | none ↦ record ps { raft_log = log }
            | some e ↦ record ps {
              raft_log = log;
              raft_state = record ps.raft_state { last_index = e.index; last_term = e.term };
            }
          ])
          (kept ++ e ∷ es))
      (sym q)
      (record {
        there = there;
        ends = omega (arith, i, length-append kept (e ∷ es));
        room = omega (arith, i, room);
      })

-- Appended entries, which go on where the kept part of the log ends and have room below 2^64,
-- become the end of the log, whether they are fewer or more than the entries that they replace.
-- The engine's slots behind them are left as they are: replaced entries there are not deleted, and
-- only the last index keeps them out of the log.
pub append-Represents :
    (ps : PeerStorage) (kept dropped : List Entry) (e : Entry) (es : List Entry)
    → Represents ps (kept ++ dropped)
    → Contiguous (ps.truncated_index + length kept) (e ∷ es)
    → ps.truncated_index + length kept + length (e ∷ es) + 1 < u64_mod
    → Represents (append ps (e ∷ es)) (kept ++ e ∷ es)
      × ((i : ℕ)
          → ps.truncated_index + length kept + length (e ∷ es) < i
          → (append ps (e ∷ es)).raft_log i ≡ ps.raft_log i)
append-Represents ps kept dropped e es r c room = (
  append-Represents_log ps kept dropped e es r c room,
  λ i h.
      ap (λ (log : ℕ → Slot). log i) (append-raft_log ps (e ∷ es))
      ∙ set_entries-behind ps.raft_log (ps.truncated_index + length kept) i (e ∷ es) c h,
)
