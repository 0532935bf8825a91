-- ===== src/StaticVar/Space.antt =====
-- Where `pumallocStaticLocal` puts its data, and what becomes of the nodes behind the tail.
use puma.Base.{
  none, ℕ, zero, suc, ◌+◌, ◌*◌, ◌/◌, ◌%◌, ◌⊎◌, inl, inr, sym, ap, ◌∙◌, ℕ_discrete, ◌^◌, ◌≤◌, ◌<◌,
  ◌≡◌, ◌≢◌, ◌↔◌, refl, arith, true, false, some, List, ◌∷◌, leb, ◌==◌,
}
use mathlib.Core.Path.{subst}
use native.Mathlib.Nat.{add-mul-div_right, div-add-mod', div-eq_of_lt, mod-lt}
use puma.Bits.{pow_pos}
use puma.Bits.Mask.{bit_and-round}
use puma.Util.Address.{get_smallest_containing_pages_lem}
use puma.Word.{u64, sub64}
use puma.Memory.{Ptr, null, update}
use puma.Util.{Config, node_size, get_smallest_containing_pages, get_node_for_element}
use puma.StaticVar.{StaticNode, Statics, static_header, pumalloc_static_local}

-- The tail key names a node at `p` that holds `n`: what it has given out lies behind its header.
pub record IsTail (s : Statics) (p : Ptr) (n : StaticNode) : Type 0 where
  pub started : (s.head == null) ≡ false
  pub key : s.tail ≡ p
  pub live : (p == null) ≡ false
  pub holds : s.node p ≡ some n
  pub next_free : n.next_free ≡ p + static_header + n.used
  pub used_small : n.used ≤ n.block_size
  pub small : n.block_size < 2 ^ 63

abbrev pub taken : StaticNode → ℕ → StaticNode
taken n size = record n { next_free = n.next_free + size; used = n.used + size }

-- If the tail has `size` bytes by the code's test, they are taken from it: the data starts behind
-- what was given out before, the node's count grows by `size`, no other node and no key changes;
-- and the data ends within the block exactly if it ends before the last 40 bytes by the test's count.
pub pumalloc_static_local_lem :
    (c : Config) (size : ℕ) (s : Statics) (p : Ptr) (n : StaticNode)
    → IsTail s p n
    → n.used + size ≤ n.block_size
    → (s' : Statics) × (r : Ptr) × (pumalloc_static_local c size s ≡ some (r, s'))
      × (r ≡ p + static_header + n.used)
      × IsTail s' p (taken n size)
      × ((q : Ptr) → q ≢ p → s'.node q ≡ s.node q)
      × ((r + size ≤ p + n.block_size) ↔ (n.used + size + static_header ≤ n.block_size))
unfolding pumalloc_static_local
pumalloc_static_local_lem c size s p n t space =
    let enough : leb size (sub64 n.block_size n.used) ≡ true = ground (arith, t.small) in
    let sum : u64 (n.used + size) ≡ n.used + size = omega (arith, t.small) in
    (
      record s { node = update s.node p (some (taken n size)) },
      n.next_free,
      rw (t.started, t.key, t.holds, enough, t.holds, sum),
      t.next_free,
      record {
        started = t.started;
        key = t.key;
        live = t.live;
        holds = ground arith;
        next_free = omega (arith, t.next_free);
        used_small = space;
        small = t.small;
      },
      λ q ne. ground arith,
      omega (arith, t.next_free),
    )

-- The node that is made behind `p`, at `q`.
abbrev new_node : (page_size size p q : ℕ) → StaticNode
new_node page_size size p q = record {
  next_free = q + static_header;
  used = 0;
  block_size = u64 (get_smallest_containing_pages page_size size + static_header);
  next = null;
  prev = p;
}

-- If the tail lacks `size` bytes by the code's test, and the next block that is given out is a new
-- one at `q`, aligned to a node's size: the data is at the start of that block, behind its header;
-- the tail key still names the old node, whose `next` is now the new node, whatever node it named
-- before; the new node's `next` is NULL; and no other node changes.
pub pumalloc_static_local-append :
    (c : Config) (size q : ℕ) (s : Statics) (p : Ptr) (n : StaticNode)
    → (rest : List Ptr) → IsTail s p n
    → n.block_size < n.used + size
    → size < 2 ^ 63
    → s.fresh ≡ q ∷ rest
    → get_node_for_element c q ≡ q
    → q ≢ p
    → (s' : Statics) × (new : StaticNode) × (pumalloc_static_local c size s
        ≡ some (q + static_header, s'))
      × (s'.tail ≡ p)
      × (s'.node p ≡ some (record n { next = q }))
      × (s'.node q ≡ some new)
      × (new.next ≡ null)
      × (new.prev ≡ p)
      × (new.used ≡ size)
      × ((o : Ptr) → o ≢ p → o ≢ q → s'.node o ≡ s.node o)
unfolding pumalloc_static_local
pumalloc_static_local-append c size q s p n rest t full low at_q aligned ne =
    let lacks : leb size (sub64 n.block_size n.used) ≡ false =
      ground (arith, t.small, t.used_small) in
    let sum : u64 (0 + size) ≡ size = omega arith in
    let new = new_node c.page_size size p q in
    let other : (q == p) ≡ false = ground arith in
    let other_way : (p == q) ≡ false = ground arith in
    let same : (q == q) ≡ true = ground arith in
    let linked = update (update s.node q (some new)) p (some (record n { next = q })) in
    (
      record s {
        node =
            update linked q
              (some (record new { next_free = q + static_header + size; used = size }));
        fresh = rest;
      },
      record new { next_free = q + static_header + size; used = size },
      rw (
        t.started, t.key, t.holds, lacks, at_q, aligned, same, t.live, other, t.holds, other_way,
        same, sum,
      ),
      t.key,
      ground arith,
      ground arith,
      refl,
      refl,
      refl,
      λ o a b. ground arith,
    )

-- A page is where a node can be exactly if its number is a multiple of the pages of a node.
page_round : (n m i : ℕ) → 0 < n → 0 < m → i * n / (n * m) * (n * m) + i % m * n ≡ i * n
page_round n m i some_n some_m =
    let whole : i * n ≡ i % m * n + i / m * (n * m) =
      ap (λ t. t * n) (sym (div-add-mod' i m)) ∙ spread (i / m) (i % m) n m in
    let low : i % m * n < n * m = smaller (i % m) n m some_n (mod-lt i some_m) in
    let quotient : i * n / (n * m) ≡ i / m =
      ap (λ t. t / (n * m)) whole
      ∙ add-mul-div_right (i % m * n) (i / m) (omega (arith, low))
      ∙ ap (λ t. t + i / m) (div-eq_of_lt low)
      ∙ omega arith in
    ap (λ t. t * (n * m) + i % m * n) quotient ∙ omega (arith, whole)
  where
    spread : (d r n m : ℕ) → (d * m + r) * n ≡ r * n + d * (n * m)
    spread d r n m = grind arith

    smaller : (r n m : ℕ) → 0 < n → r < m → r * n < n * m
    smaller r n m some_n lt = grind arith

-- The first request of a thread, for fewer than `2 ^ 63` bytes, with pages of `2 ^ k` bytes, fewer than
-- `2 ^ 62`, and nodes of `2 ^ b`. The source asks `posix_memalign` for no more than a page's alignment:
-- the block that it gives is a page `i`, not 0. If the number of the page is not a multiple of the
-- pages of a node, the `assert` of `numalloc_on_node` fails; if it is, the data is behind the header
-- of that block, which both keys name.
pub pumalloc_static_local-node_pages :
    (c : Config) (k b i size : ℕ) (s : Statics)
    → (rest : List Ptr) → c.page_size ≡ 2 ^ k
    → node_size c ≡ 2 ^ b
    → k ≤ 64
    → b ≤ 64
    → c.page_size < 2 ^ 62
    → 0 < i
    → i * 2 ^ k < 2 ^ 64
    → (s.head == null) ≡ true
    → s.fresh ≡ i * 2 ^ k ∷ rest
    → size < 2 ^ 63
    → ((i % c.node_pages ≢ 0) × (pumalloc_static_local c size s ≡ none))
      ⊎ ((i % c.node_pages ≡ 0)
          × ((s' : Statics) × (pumalloc_static_local c size s
                ≡ some (i * 2 ^ k + static_header, s'))
              × (s'.head ≡ i * 2 ^ k)
              × (s'.tail ≡ i * 2 ^ k)))
unfolding pumalloc_static_local get_node_for_element
pumalloc_static_local-node_pages c k b i size s rest pages sized few few' low live top first at_q
      small =
    let q = i * 2 ^ k in
    let found : get_node_for_element c q ≡ q / 2 ^ b * 2 ^ b =
      rw sized (bit_and-round b q few' top) in
    let product : 2 ^ b ≡ 2 ^ k * c.node_pages = sym sized ∙ ap (λ t. t * c.node_pages) pages in
    let some_pages : 0 < c.node_pages =
      factor_pos (2 ^ k) c.node_pages (2 ^ b) (pow_pos b) product in
    let round =
      subst (λ x. q / x * x + i % c.node_pages * 2 ^ k ≡ q) (sym product)
        (page_round (2 ^ k) c.node_pages i (pow_pos k) some_pages) in
    elim (ℕ_discrete (i % c.node_pages) 0) [
      | no off ↦
          let more : 0 < i % c.node_pages * 2 ^ k =
            product_pos (i % c.node_pages) (2 ^ k) off (pow_pos k) in
          let fails : (q == get_node_for_element c q) ≡ false =
            ground (arith, found, round, more) in
          inl (off, rw (first, at_q, fails) refl)
      | yes on ↦
          let none_left : i % c.node_pages * 2 ^ k ≡ 0 = ap (λ r. r * 2 ^ k) on ∙ omega arith in
          let holds : (q == get_node_for_element c q) ≡ true =
            ground (arith, found, round, none_left) in
          let (room, least, _) =
            get_smallest_containing_pages_lem k c.page_size size few pages
              (omega (arith, low, small)) in
          let same : (q == q) ≡ true = ground arith in
          let new = new_node c.page_size size null q in
          let enough : leb size (sub64 new.block_size 0) ≡ true =
            ground (arith, room, least, low, small) in
          inr (
            on,
            (
              record s {
                node = update (update s.node q (some new)) q (
                    some
                      (record new { next_free = q + static_header + size; used = u64 (0 + size) }));
                head = q;
                tail = q;
                fresh = rest;
              },
              rw (first, at_q, holds, same, enough, same) refl,
              refl,
              refl,
            ),
          )
    ]
  where
    factor_pos : (n m p : ℕ) → 0 < p → p ≡ n * m → 0 < m
    factor_pos n zero p some_p e = omega (arith, some_p, e)
    factor_pos n (suc m) p some_p e = omega arith

    product_pos : (r n : ℕ) → r ≢ 0 → 0 < n → 0 < r * n
    product_pos r n some_r some_n = grind arith
