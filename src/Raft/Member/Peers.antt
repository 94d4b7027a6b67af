-- ===== src/Raft/Member/Peers.antt =====
-- raft/raft.go: addNode and removePeer, as changes of the list of members.
use mathlib.Core.List.{append_assoc}
use tinykv.Prelude.{
  occurrences, ℕ, zero, suc, ◌+◌, ◌-◌, ◌≤◌, ◌≡◌, ◌≢◌, refl, sym, ap, ap₂, ◌∙◌, true, false, some,
  List, [], ◌∷◌, ◌++◌, arith, length, take, drop, get_elem?, ltb, ◌==◌, if◌then◌else◌, Bool-cases,
  inl, inr, Result, ok, ◌>>=◌, or_panic, panic, out_of_range, length-append, length-drop,
  take-length_append, take-all, get_elem?-length_append, get_elem?-in_range, if_true, if_false,
  lt→ltb, ==→eq, ne→==,
}
use tinykv.Raft.Node.{Raft, contains_peer}
use tinykv.Raft.Member.{shift_down, remove_loop, remove_peer, add_node}

-- The list without a peer.
abbrev pub without : ℕ → List ℕ → List ℕ
without id [] = []
without id (p ∷ ps) = if p == id then without id ps else p ∷ without id ps

-- Behind the removed cell the loop changes nothing more.
remove_loop-rest :
    (rounds i id : ℕ) (cells : List ℕ) (n : ℕ)
    → i + rounds ≤ length cells
    → occurrences id (drop i cells) ≡ 0
    → remove_loop rounds i id cells n ≡ ok (take n cells)
unfolding remove_loop
remove_loop-rest zero i id cells n h o = refl
remove_loop-rest (suc rounds) i id cells n h o =
    let (p, found) = get_elem?-in_range cells i (omega arith) in
    let (ne, o') = next cells i p found o in
    ground (arith, found, ne→== p id ne, remove_loop-rest rounds (suc i) id cells n)
  where
    next :
        (cells : List ℕ) (i p : ℕ)
        → get_elem? cells i ≡ some p
        → occurrences id (drop i cells) ≡ 0
        → (p ≢ id) × (occurrences id (drop (suc i) cells) ≡ 0)
    next [] i p found o = cc
    next (c ∷ cells) zero p found o = ground arith
    next (c ∷ cells) (suc i) p found o = next cells i p found o

occurrences-append :
    (a : ℕ) (xs ys : List ℕ) → occurrences a (xs ++ ys) ≡ occurrences a xs + occurrences a ys
occurrences-append a [] ys = omega arith
occurrences-append a (x ∷ xs) ys = omega (arith, occurrences-append a xs ys)

occurrences-drop : (a n : ℕ) (xs : List ℕ) → occurrences a (drop n xs) ≤ occurrences a xs
occurrences-drop a zero xs = omega arith
occurrences-drop a (suc n) [] = omega arith
occurrences-drop a (suc n) (x ∷ xs) = omega (arith, occurrences-drop a n xs)

occurrences-le-length : (a : ℕ) (xs : List ℕ) → occurrences a xs ≤ length xs
occurrences-le-length a [] = omega arith
occurrences-le-length a (x ∷ xs) = ground (arith, occurrences-le-length a xs)

without-none : (id : ℕ) (ps : List ℕ) → occurrences id ps ≡ 0 → without id ps ≡ ps
without-none id [] o = refl
without-none id (p ∷ ps) o = ground (arith, without-none id ps)

drop-add_append : (xs ys : List ℕ) (n : ℕ) → drop (length xs + n) (xs ++ ys) ≡ drop n ys
drop-add_append [] ys n = ap (λ k. drop k ys) (omega arith)
drop-add_append (x ∷ xs) ys n =
    let e : suc (length xs) + n ≡ suc (length xs + n) = omega arith in
    rw e (drop-add_append xs ys n)

-- The cells after the removal of the one behind `pre`: the last one keeps its value.
module _ (id p : ℕ) (pre ps : List ℕ) (o : occurrences id ps ≡ 0) where
  abbrev cells : List ℕ
  cells = pre ++ p ∷ ps

  abbrev last_cell : List ℕ
  last_cell = drop (length cells - 1) cells

  size : length cells ≡ length pre + suc (length ps)
  size = length-append pre (p ∷ ps)

  shifted : shift_down cells (length pre) (length cells) ≡ (pre ++ ps) ++ last_cell
  unfolding shift_down
  shifted =
      let e : suc (length pre) ≡ length pre + 1 = omega arith in
      rw (
        take-length_append pre (p ∷ ps),
        take-all (length cells) cells (omega arith),
        e,
        drop-add_append pre (p ∷ ps) 1,
      )

  last_size : length last_cell ≡ 1
  last_size = omega (arith, length-drop (length cells - 1) cells, size)

  last_free : (k : ℕ) → length ps ≡ suc k → occurrences id last_cell ≡ 0
  last_free k e =
      let n : length cells - 1 ≡ length pre + suc k = omega (arith, size) in
      rw (n, drop-add_append pre (p ∷ ps) (suc k)) (omega (arith, occurrences-drop id k ps))

  rest_free : occurrences id (drop (suc (length pre)) ((pre ++ ps) ++ last_cell)) ≡ 0
  rest_free =
      let e : suc (length pre) ≡ length pre + 1 = omega arith in
      rw (e, append_assoc pre ps last_cell, drop-add_append pre (ps ++ last_cell) 1)
        (free ps o refl)
    where
      free :
          (qs : List ℕ)
          → occurrences id qs ≡ 0
          → qs ≡ ps
          → occurrences id (drop 1 (qs ++ last_cell)) ≡ 0
      free [] z q =
          omega
            (arith, occurrences-le-length id (drop 1 last_cell), length-drop 1 last_cell, last_size)
      free (x ∷ qs) z q =
          omega
            (arith, occurrences-append id qs last_cell, last_free (length qs) (ap length (sym q)))

  removed :
      remove_loop
        (length ps)
        (suc (length pre))
        id
        (shift_down cells (length pre) (length cells))
        (length cells - 1)
      ≡ ok (pre ++ ps)
  removed =
      let e : length cells - 1 ≡ length (pre ++ ps) = omega (arith, size, length-append pre ps) in
      rw shifted (
        remove_loop-rest (length ps) (suc (length pre)) id ((pre ++ ps) ++ last_cell) _
          (omega (arith, length-append (pre ++ ps) last_cell, length-append pre ps, last_size))
          rest_free
        ∙ ap ok (
            ap (λ k. take k ((pre ++ ps) ++ last_cell)) e
            ∙ take-length_append (pre ++ ps) last_cell))

-- The loop at the cell behind `pre`, in which the peer does not stand.
remove_loop-scan :
    (id : ℕ) (rest pre : List ℕ)
    → occurrences id rest ≤ 1
    → remove_loop (length rest) (length pre) id (pre ++ rest) (length (pre ++ rest))
      ≡ ok (pre ++ without id rest)
unfolding remove_loop
remove_loop-scan id [] pre o = ap ok (take-all _ _ (omega arith))
remove_loop-scan id (p ∷ ps) pre o = elim (Bool-cases (p == id)) [
  | inl hit ↦
      let z : occurrences id ps ≡ 0 = ground arith in
      let lt =
        lt→ltb (length pre) (length (pre ++ p ∷ ps)) (omega (arith, length-append pre (p ∷ ps))) in
      ap (λ o. or_panic out_of_range o >>= λ peer. pick peer) (get_elem?-length_append pre ps p)
      ∙ if_true _ _ hit
      ∙ if_true _ _ lt
      ∙ removed id p pre ps z
      ∙ ap (λ l. ok (pre ++ l)) (sym (if_true _ _ hit ∙ without-none id ps z))
  | inr miss ↦
      ap (λ o. or_panic out_of_range o >>= λ peer. pick peer) (get_elem?-length_append pre ps p)
      ∙ if_false _ _ miss
      ∙ step_over (remove_loop-scan id ps (pre ++ p ∷ []) (ground arith))
      ∙ ap (λ l. ok (pre ++ l)) (sym (if_false _ _ miss))
]
  where
    pick : ℕ → Result (List ℕ)
    pick peer =
        let cells = pre ++ p ∷ ps in
        let hit =
          remove_loop (length ps) (suc (length pre)) id
            (shift_down cells (length pre) (length cells)) (length cells - 1) in
        let miss = remove_loop (length ps) (suc (length pre)) id cells (length cells) in
        if peer == id
        then (if ltb (length pre) (length cells) then hit else panic out_of_range)
        else miss

    step_over :
        remove_loop
            (length ps)
            (length (pre ++ p ∷ []))
            id
            ((pre ++ p ∷ []) ++ ps)
            (length ((pre ++ p ∷ []) ++ ps))
          ≡ ok ((pre ++ p ∷ []) ++ without id ps)
        → remove_loop (length ps) (suc (length pre)) id (pre ++ p ∷ ps) (length (pre ++ p ∷ ps))
          ≡ ok (pre ++ p ∷ without id ps)
    step_over ih =
        let n : suc (length pre) ≡ length (pre ++ p ∷ []) =
          omega (arith, length-append pre (p ∷ [])) in
        ap₂ (λ k cs. remove_loop (length ps) k id cs (length cs)) n
          (sym (append_assoc pre (p ∷ []) ps))
        ∙ ih
        ∙ ap ok (append_assoc pre (p ∷ []) (without id ps))

-- removePeer shifts the slice in place while it ranges over it. Where the peer is listed at most
-- once it does not panic, and leaves exactly the other peers, in their order.
pub remove_peer_lem :
    (id : ℕ) (peers : List ℕ)
    → occurrences id peers ≤ 1
    → remove_peer peers id ≡ ok (without id peers)
unfolding remove_peer
remove_peer_lem id peers o = remove_loop-scan id peers [] o

contains_peer-occurrences :
    (id : ℕ) (ps : List ℕ) → contains_peer ps id ≡ false → occurrences id ps ≡ 0
unfolding contains_peer
contains_peer-occurrences id [] h = refl
contains_peer-occurrences id (p ∷ ps) h = ground (arith, contains_peer-occurrences id ps)

contains_peer-listed : (id : ℕ) (ps : List ℕ) → contains_peer ps id ≡ true → 1 ≤ occurrences id ps
unfolding contains_peer
contains_peer-listed id [] h = cc
contains_peer-listed id (p ∷ ps) h = ground (arith, contains_peer-listed id ps)

occurrences-if :
    (id p : ℕ) (ps : List ℕ)
    → occurrences id ps ≡ 1
    → occurrences p ps ≡ (if p == id then 1 else occurrences p ps)
occurrences-if id p ps h = elim (Bool-cases (p == id)) [
  | inl e ↦ ap (λ q. occurrences q ps) (==→eq p id e) ∙ h ∙ sym (if_true _ _ e)
  | inr n ↦ sym (if_false _ _ n)
]

-- After addNode a peer that was listed at most once is a member and listed once, every other peer
-- is listed as before, and a further configuration change may be proposed.
pub add_node-members :
    (r : Raft) (id : ℕ)
    → occurrences id r.peers ≤ 1
    → ((p : ℕ)
        → occurrences p (add_node r id).peers ≡ (if p == id then 1 else occurrences p r.peers))
      × ((add_node r id).pending_conf_index ≡ 0)
unfolding add_node
add_node-members r id once = elim (Bool-cases (contains_peer r.peers id)) [
  | inl old ↦
      let k = contains_peer-listed id r.peers old in
      rw (if_true _ _ old) (λ p. occurrences-if id p r.peers (omega arith), refl)
  | inr new ↦
      let k = contains_peer-occurrences id r.peers new in
      rw (if_false _ _ new) (λ p. ground (arith, occurrences-append p r.peers (id ∷ [])), refl)
]
