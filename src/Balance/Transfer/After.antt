-- ===== src/Balance/Transfer/After.antt =====
-- Two thread lists after a transfer are well formed when their counts are.
use mathlib.Core.Path.{subst}
use puma.Base.{ℕ, ◌+◌, ◌≡◌, refl, sym, ap, ◌∙◌, arith, true, some, [], ◌∷◌, ◌++◌, length}
use puma.Memory.{Ptr, null, Node, ThreadList, Memory}
use puma.Node.Chain.{Cells, first_of, Linked, total_elements}
use puma.Balance.Segment.{last_of, if_last, at_last, mapped, StopsAt, IsCounted}
use puma.Balance.Shape.{
  addresses, at_last-Alike, last_of-Alike, length-Alike, mapped-Alike, at_last-IsCounted,
  mapped-IsCounted, mapped-kept, ++-IsCounted, ++-Linked, total_elements-at_last,
  total_elements-mapped, total_elements-++, length-++, last_of-++,
}
use puma.Balance.Moved.{set_indexes, set_lists}
use puma.Balance.Splice.{with_prev, with_next, with_next_dirty}
use puma.Balance.Transfer.{tail_of, IsList}

-- The ends of a list do not change when its last node is replaced, or nodes are put behind it.
first_of-at_last :
    (g : Node → Node) (cells : Cells) (after : Ptr)
    → first_of (at_last g cells) after ≡ first_of cells after
first_of-at_last g [] after = refl
first_of-at_last g ((p, n) ∷ rest) after = refl

pub first_of-++ :
    (xs : Cells) (p : Ptr) (n : Node) (ys : Cells) (after : Ptr)
    → first_of (xs ++ (p, n) ∷ ys) after ≡ first_of xs p
first_of-++ [] p n ys after = refl
first_of-++ ((q, m) ∷ xs) p n ys after = refl

tail_of-at_last :
    (g : Node → Node) (cells : Cells) (after : Ptr)
    → tail_of (at_last g cells) after ≡ tail_of cells after
tail_of-at_last g [] after = refl
tail_of-at_last g ((p, n) ∷ rest) after =
    last_of-Alike p (at_last g rest) rest (at_last-Alike g rest)

pub tail_of-++ :
    (xs : Cells) (p : Ptr) (n : Node) (ys : Cells) (after : Ptr)
    → tail_of (xs ++ (p, n) ∷ ys) after ≡ last_of ys p
tail_of-++ [] p n ys after = refl
tail_of-++ ((q, m) ∷ xs) p n ys after = last_of-++ xs ((p, n) ∷ ys) q

module _ (from to f_after t_after b : Ptr) (nb : Node) (kept bs grown : Cells) where
  abbrev moved : Cells
  moved = (b, nb) ∷ bs

  -- The moved nodes at their new place.
  abbrev pub relinked : Cells
  relinked =
      set_lists to
        (set_indexes (length grown) (with_prev (last_of grown null) (with_next t_after moved)))

  pub kept-IsList :
      (h : Memory) (l : ThreadList)
      → h.list from ≡ some l
      → Linked h.node null (with_next f_after kept) f_after
      → StopsAt h.node f_after
      → l.head ≡ first_of kept f_after
      → l.tail ≡ tail_of kept f_after
      → l.num_nodes ≡ length kept
      → l.num_elements ≡ total_elements kept
      → IsCounted 0 kept
      → IsList h from l (with_next f_after kept) f_after
  kept-IsList h l in_list linked stops head tail nodes elements counted =
      let like = at_last-Alike (λ n. record n { next = f_after }) kept in
      record {
        in_list = in_list;
        linked = linked;
        head = head ∙ sym (first_of-at_last (λ n. record n { next = f_after }) kept f_after);
        tail = tail ∙ sym (tail_of-at_last (λ n. record n { next = f_after }) kept f_after);
        nodes = nodes ∙ sym (length-Alike (with_next f_after kept) kept like);
        elements =
            elements
            ∙ sym (total_elements-at_last (λ n. record n { next = f_after }) kept (λ n. refl));
        counted =
            at_last-IsCounted (λ n. record n { next = f_after }) 0 kept (λ n. refl) (λ n. refl)
              counted;
        stops = stops;
      }

  relinked-IsCounted : (j : ℕ) → IsCounted j moved → IsCounted (length grown) relinked
  relinked-IsCounted j counted =
      let (active, here, later) =
        at_last-IsCounted (λ n. record n { next = t_after }) j moved (λ n. refl) (λ n. refl)
          counted in
      mapped-kept (λ k n. record n { thread_list = to }) 0 (length grown)
        (set_indexes (length grown) (with_prev (last_of grown null) (with_next t_after moved)))
        (λ k n. refl) (λ k n. refl)
        (mapped-IsCounted (λ k n. record n { index = k }) (length grown) j
          (with_prev (last_of grown null) (with_next t_after moved)) (λ k n. refl) (λ k n. refl)
          (active, here, later))

  pub relinked-Alike : addresses relinked ≡ addresses moved
  relinked-Alike =
      mapped-Alike (λ k n. record n { thread_list = to }) 0
        (set_indexes (length grown) (with_prev (last_of grown null) (with_next t_after moved)))
      ∙ mapped-Alike (λ k n. record n { index = k }) (length grown)
          (with_prev (last_of grown null) (with_next t_after moved))
      ∙ at_last-Alike (λ n. record n { next = t_after }) moved

  pub total_elements-relinked : total_elements relinked ≡ total_elements moved
  total_elements-relinked =
      total_elements-mapped (λ k n. record n { thread_list = to }) 0
        (set_indexes (length grown) (with_prev (last_of grown null) (with_next t_after moved)))
        (λ k n. refl)
      ∙ total_elements-mapped (λ k n. record n { index = k }) (length grown)
          (with_prev (last_of grown null) (with_next t_after moved)) (λ k n. refl)
      ∙ total_elements-at_last (λ n. record n { next = t_after }) moved (λ n. refl)

  pub grown-IsList :
      (h : Memory) (l : ThreadList) (j : ℕ)
      → h.list to ≡ some l
      → Linked h.node null (with_next_dirty b grown) b
      → Linked h.node (last_of grown null) relinked t_after
      → StopsAt h.node t_after
      → l.head ≡ first_of grown b
      → l.tail ≡ last_of bs b
      → l.num_nodes ≡ length grown + length moved
      → l.num_elements ≡ total_elements grown + total_elements moved
      → IsCounted 0 grown
      → IsCounted j moved
      → IsList h to l (with_next_dirty b grown ++ relinked) t_after
  grown-IsList h l j in_list linked linked' stops head tail nodes elements counted counted' =
      let front = with_next_dirty b grown in
      let like = at_last-Alike (λ n. record n { next = b; dirty = true }) grown in
      let moved_first = record (if_last (λ n. record n { next = t_after }) nb bs) {
        prev = last_of grown null;
      } in
      let first = record moved_first { index = length grown; thread_list = to } in
      let rest =
        mapped (λ k n. record n { thread_list = to }) (0 + 1)
          (set_indexes (length grown + 1) (with_next t_after bs)) in
      let size = length-Alike front grown like in
      let size' = length-Alike relinked moved relinked-Alike in
      let end_front : last_of front null ≡ last_of grown null =
        last_of-Alike null front grown like in
      let total =
        total_elements-at_last (λ n. record n { next = b; dirty = true }) grown (λ n. refl) in
      record {
        in_list = in_list;
        linked =
            ++-Linked h.node null t_after front relinked linked
              (subst (λ p. Linked h.node p relinked t_after) (sym end_front) linked');
        head =
            head
            ∙ sym (
                first_of-++ front b first rest t_after
                ∙ first_of-at_last (λ n. record n { next = b; dirty = true }) grown b);
        tail =
            tail
            ∙ sym (
                tail_of-++ front b first rest t_after
                ∙ last_of-Alike null relinked moved relinked-Alike);
        nodes =
            nodes
            ∙ sym (
                length-++ front relinked
                ∙ ap (λ k. k + length relinked) size
                ∙ ap (λ k. length grown + k) size');
        elements =
            elements
            ∙ sym (
                total_elements-++ front relinked
                ∙ ap (λ k. k + total_elements relinked) total
                ∙ ap (λ k. total_elements grown + k) total_elements-relinked);
        counted =
            ++-IsCounted 0 front relinked
              (at_last-IsCounted (λ n. record n { next = b; dirty = true }) 0 grown (λ n. refl)
                (λ n. refl) counted)
              (subst (λ k. IsCounted k relinked) (omega (arith, size))
                (relinked-IsCounted j counted'));
        stops = stops;
      }
