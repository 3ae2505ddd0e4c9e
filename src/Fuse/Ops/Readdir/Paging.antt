-- ===== src/Fuse/Ops/Readdir/Paging.antt =====
-- The pages of a directory that `readdir` of nyne/src/fuse/ops.rs lists.
use nyne.Prelude.{
  ℕ, zero, suc, ◌+◌, ◌-◌, ◌≡◌, ◌<◌, refl, sym, ap, ap₂, subst, ◌∙◌, Bool, true, false, List, [],
  ◌∷◌, ◌++◌, ltb, drop, map, length, ◌⊎◌, inl, inr, Bool-cases, length-map, length-append,
  append_assoc, append-nil, drop-append_ge, drop-drop, arith,
}
use nyne.Fuse.Slab.{Slab}
use nyne.Fuse.Inodes.{InodeEntry, InodeMap, ensure_inode, parent_of}
use nyne.Fuse.Ops.Readdir.{
  readdir_skip, FileType, directory, DirNode, DirEntry, child_entry, list_nodes, dot_entry,
  dotdot_entry, readdir, last_offset, is_end, read_all,
}

-- What a reply shows of an entry, apart from its inode number.
pub record Shown (Name : Type 0) : Type 0 where
  pub at : ℕ
  pub kind : FileType
  pub name : Name

module _ {Name : Type 0} where
  abbrev pub shown : DirEntry Name → Shown Name
  shown e = record { at = e.offset; kind = e.kind; name = e.name }

  -- The nodes with the offsets from `i` on.
  abbrev pub numbered : ℕ → List (DirNode Name) → List (Shown Name)
  numbered i [] = []
  numbered i (n ∷ ns) = record { at = i; kind = n.kind; name = n.name } ∷ numbered (suc i) ns

  abbrev pub whole : Name → Name → List (DirNode Name) → List (DirNode Name)
  whole dot dotdot nodes =
      record { name = dot; kind = directory } ∷ record { name = dotdot; kind = directory } ∷ nodes

  numbered-append :
      (i : ℕ) (xs ys : List (DirNode Name))
      → numbered i (xs ++ ys) ≡ numbered i xs ++ numbered (i + length xs) ys
  numbered-append i [] ys = ap (λ k. numbered k ys) (omega arith)
  numbered-append i (x ∷ xs) ys =
      ap (λ r. record { at = i; kind = x.kind; name = x.name } ∷ r)
        (numbered-append (suc i) xs ys
          ∙ ap (λ k. numbered (suc i) xs ++ numbered k ys) (omega arith))

  map-append : (xs ys : List (DirEntry Name)) → map shown (xs ++ ys) ≡ map shown xs ++ map shown ys
  map-append [] ys = refl
  map-append (x ∷ xs) ys = ap (λ r. shown x ∷ r) (map-append xs ys)

  abbrev last_at : ℕ → List (Shown Name) → ℕ
  last_at o [] = o
  last_at o (x ∷ xs) = last_at x.at xs

  last_at-numbered :
      (o : ℕ) (xs : List (DirNode Name)) → last_at o (numbered (suc o) xs) ≡ o + length xs
  last_at-numbered o [] = omega arith
  last_at-numbered o (x ∷ xs) = last_at-numbered (suc o) xs ∙ omega arith

  length-numbered : (i : ℕ) (xs : List (DirNode Name)) → length (numbered i xs) ≡ length xs
  length-numbered i [] = refl
  length-numbered i (x ∷ xs) = ap suc (length-numbered (suc i) xs)

-- A page of the items from an offset on: the first of them, and some if there are any.
pub record IsPage {Name : Type 0} (o : ℕ) (items : List (DirNode Name))
    (page : List (DirEntry Name)) : Type 0 where
  pub taken : List (DirNode Name)
  pub left : List (DirNode Name)
  pub parts : items ≡ taken ++ left
  pub shows : map shown page ≡ numbered (suc o) taken
  pub moves : (0 < length taken) ⊎ (items ≡ [])

module _ {Dir Name Node : Type 0} (S : Slab (InodeEntry Dir Name Node)) (eq : Discrete (Dir × Name))
    (full : List (DirEntry Name) → DirEntry Name → Bool) (dir_path : Dir) (ino : ℕ) where
  list_nodes-shown :
      (m : InodeMap S) (rs : List (DirEntry Name)) (i : ℕ) (nodes : List (DirNode Name))
      → (taken left : List (DirNode Name)) × (nodes ≡ taken ++ left)
        × (map shown (list_nodes S eq full m dir_path ino rs i nodes).1
            ≡ map shown rs ++ numbered (3 + i) taken)
  unfolding list_nodes
  list_nodes-shown m rs i [] = ([], [], refl, sym (append-nil (map shown rs)))
  list_nodes-shown m rs i (node ∷ nodes) =
      let (m', child) = ensure_inode S eq m dir_path node.name ino in
      let e = child_entry S eq full child i node in
      elim (Bool-cases (full rs e)) [
        | inl stop ↦ ([], node ∷ nodes, refl, rw (stop) (sym (append-nil (map shown rs))))
        | inr go ↦
            let (taken, left, parts, shows) = list_nodes-shown m' (rs ++ e ∷ []) (suc i) nodes in
            (
              node ∷ taken,
              left,
              ap (λ r. node ∷ r) parts,
              rw (go) (
                  shows
                  ∙ ap₂ (λ r k. r ++ numbered k taken) (map-append rs (e ∷ [])) (omega arith)
                  ∙ append_assoc (map shown rs) (shown e ∷ []) (numbered (suc (3 + i)) taken)),
            )
      ]

  -- With room for each entry alone, the loop from an empty reply lists the first node, if there is one.
  list_nodes-IsPage :
      ((e : DirEntry Name) → full [] e ≡ false)
      → (m : InodeMap S) (i : ℕ) (nodes : List (DirNode Name))
      → IsPage (2 + i) nodes (list_nodes S eq full m dir_path ino [] i nodes).1
  unfolding list_nodes
  list_nodes-IsPage room m i [] = record {
    taken = [];
    left = [];
    parts = refl;
    shows = refl;
    moves = inr refl;
  }
  list_nodes-IsPage room m i (node ∷ nodes) =
      let (m', child) = ensure_inode S eq m dir_path node.name ino in
      let e = child_entry S eq full child i node in
      let (taken, left, parts, shows) = list_nodes-shown m' (e ∷ []) (suc i) nodes in
      record {
        taken = node ∷ taken;
        left = left;
        parts = ap (λ r. node ∷ r) parts;
        shows = rw (room e) (
            shows
            ∙ ap₂ (λ a k. record { at = a; kind = node.kind; name = node.name } ∷ numbered k taken)
                (omega arith) (omega arith));
        moves = inl (omega arith);
      }

  readdir_skip-entries : (n : ℕ) → readdir_skip (2 + n) ≡ n
  unfolding readdir_skip
  readdir_skip-entries n = ground arith

  module _ (dot dotdot : Name) where
    -- With room for each entry alone, a call lists the first of the entries behind its offset, with
    -- `.` and `..` before the nodes and the offsets in order, and one of them at least if there are any.
    pub readdir-IsPage :
        ((e : DirEntry Name) → full [] e ≡ false)
        → (m : InodeMap S) (nodes : List (DirNode Name)) (o : ℕ)
        → IsPage o
            (drop o (whole dot dotdot nodes))
            (readdir S eq full dot dotdot m dir_path ino nodes o).1
    unfolding readdir readdir_skip
    readdir-IsPage room m nodes zero =
        let first = dot_entry S eq full dot dotdot ino in
        let second = dotdot_entry S eq full dot dotdot (parent_of S m ino) in
        elim (Bool-cases (full (first ∷ []) second)) [
          | inl stop ↦ record {
            taken = record { name = dot; kind = directory } ∷ [];
            left = record { name = dotdot; kind = directory } ∷ nodes;
            parts = refl;
            shows = rw (room first, stop) refl;
            moves = inl (omega arith);
          }
          | inr go ↦
              let (taken, left, parts, shows) = list_nodes-shown m (first ∷ second ∷ []) 0 nodes in
              record {
                taken = whole dot dotdot taken;
                left = left;
                parts = ap (whole dot dotdot) parts;
                shows = rw (room first, go) shows;
                moves = inl (omega arith);
              }
        ]
    readdir-IsPage room m nodes (suc zero) =
        let second = dotdot_entry S eq full dot dotdot (parent_of S m ino) in
        let (taken, left, parts, shows) = list_nodes-shown m (second ∷ []) 0 nodes in
        record {
          taken = record { name = dotdot; kind = directory } ∷ taken;
          left = left;
          parts = ap (λ r. record { name = dotdot; kind = directory } ∷ r) parts;
          shows = rw (room second) shows;
          moves = inl (omega arith);
        }
    readdir-IsPage room m nodes (suc (suc n)) =
        rw (not_first, not_second, skipped)
          (subst
            (λ o.
              IsPage o (drop n nodes) (list_nodes S eq full m dir_path ino [] n (drop n nodes)).1)
            later (list_nodes-IsPage room m n (drop n nodes)))
      where
        not_first : ltb (suc (suc n)) 1 ≡ false
        not_first = ground arith

        not_second : ltb (suc (suc n)) 2 ≡ false
        not_second = ground arith

        later : 2 + n ≡ suc (suc n)
        later = omega arith

        skipped : readdir_skip (suc (suc n)) ≡ n
        skipped = ap readdir_skip (omega arith) ∙ readdir_skip-entries n

    last_offset-shown :
        (o : ℕ) (page : List (DirEntry Name))
        → last_offset S eq full dot dotdot o page ≡ last_at o (map shown page)
    last_offset-shown o [] = refl
    last_offset-shown o (e ∷ es) = last_offset-shown e.offset es

    is_end-cases :
        (page : List (DirEntry Name))
        → ((is_end S eq full dot dotdot page ≡ true) × (length page ≡ 0))
          ⊎ ((is_end S eq full dot dotdot page ≡ false) × (0 < length page))
    is_end-cases [] = inl (refl, refl)
    is_end-cases (e ∷ es) = inr (refl, omega arith)

    numbered-none : (i : ℕ) (items : List (DirNode Name)) → length items ≡ 0 → [] ≡ numbered i items
    numbered-none i [] h = refl
    numbered-none i (x ∷ xs) h = absurd (omega arith)

    -- A reader with room for each entry alone, and with more calls than entries behind its offset, is
    -- given all of these, each once and in order.
    pub read_all-numbered :
        ((e : DirEntry Name) → full [] e ≡ false)
        → (fuel : ℕ) (m : InodeMap S) (nodes : List (DirNode Name)) (o : ℕ)
        → length (drop o (whole dot dotdot nodes)) < fuel
        → map shown (read_all S eq full dot dotdot fuel m dir_path ino nodes o)
          ≡ numbered (suc o) (drop o (whole dot dotdot nodes))
    unfolding read_all
    read_all-numbered room zero m nodes o enough = absurd (omega arith)
    read_all-numbered room (suc fuel) m nodes o enough =
        let (m', page) = readdir S eq full dot dotdot m dir_path ino nodes o in
        let items = drop o (whole dot dotdot nodes) in
        let p : IsPage o items page = readdir-IsPage room m nodes o in
        let size : length page ≡ length p.taken =
          sym (length-map shown page) ∙ ap length p.shows ∙ length-numbered (suc o) p.taken in
        let total : length items ≡ length p.taken + length p.left =
          ap length p.parts ∙ length-append p.taken p.left in
        elim (is_end-cases page) [
          | inl (stop, none_there) ↦ rw (stop) (
              numbered-none (suc o) items (elim p.moves [
                | inl some_there ↦ absurd (omega (arith, some_there, size, none_there))
                | inr over ↦ ap length over
              ]))
          | inr (go, some_there) ↦
              let next = last_offset S eq full dot dotdot o page in
              let at : next ≡ o + length p.taken =
                last_offset-shown o page ∙ ap (last_at o) p.shows ∙ last_at-numbered o p.taken in
              let behind : drop next (whole dot dotdot nodes) ≡ p.left =
                ap (λ k. drop k (whole dot dotdot nodes)) at
                ∙ sym (drop-drop (length p.taken) o (whole dot dotdot nodes))
                ∙ ap (drop (length p.taken)) p.parts
                ∙ drop-append_ge (length p.taken) p.taken p.left (omega arith)
                ∙ ap (λ k. drop k p.left) {x = length p.taken - length p.taken} {y = 0}
                    (omega arith) in
              let rest =
                read_all-numbered room fuel m' nodes next
                  (omega (arith, enough, size, total, some_there, ap length behind)) in
              rw (go) (
                map-append page (read_all S eq full dot dotdot fuel m' dir_path ino nodes next)
                ∙ ap₂ (λ a b. a ++ b) p.shows (rest ∙ ap₂ numbered (omega (arith, at)) behind)
                ∙ sym (numbered-append (suc o) p.taken p.left)
                ∙ ap (numbered (suc o)) (sym p.parts))
        ]
