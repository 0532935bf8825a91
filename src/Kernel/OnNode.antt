-- ===== src/Kernel/OnNode.antt =====
-- `_runKernelOnNode` visits the elements in use before the first free one, each once and in order.
use puma.Base.{
  ℕ, zero, suc, ◌+◌, ◌-◌, ◌*◌, dec_lt, ◌≤◌, ◌<◌, ◌^◌, ◌≡◌, refl, ap, ◌∙◌, arith, ◌⊎◌, true, false,
  some, if◌then◌else◌, ◌==◌, Bool-cases, inl, inr, ℕ_discrete, get_or, ◌/◌, ◌%◌,
}
use mathlib.Core.Path.{subst}
use puma.Bits.{bit-lt}
use puma.Bitmask.{Bitmask, bitmask_get, mask_free, mask_not_free}
use puma.Bitmask.Access.{IsBitmask, bit_at, bitmask_get-bit_at}
use puma.Memory.{Ptr, Node, Memory, M, pure, ◌>>◌, load}
use puma.Util.{Config, get_element}
use puma.Node.Invariant.{IsNode, used-le}
use puma.Node.Filled.{IsCompact}
use puma.Kernel.{goes_on, run_kernel_loop, run_kernel_on_node}

-- How many of `left` elements from `i` on are in use before the first free one.
pub live_prefix : Bitmask → ℕ → ℕ → ℕ
live_prefix m zero i = 0
live_prefix m (suc left) i =
    let more = live_prefix m left (i + 1) in if bit_at m i == mask_not_free then suc more else 0

-- The kernel on `k` elements from `i` on.
unfoldable pub visit : (Ptr → M (Unit {0})) → Node → ℕ → ℕ → M (Unit {0})
visit kernel n zero i = pure tt
visit kernel n (suc k) i = kernel (get_element n i) >> visit kernel n k (i + 1)

module _ (kernel : Ptr → M (Unit {0})) (p : Ptr) (n : Node) where
  -- The kernel does not fault and leaves this node as it is: it frees and allocates no element.
  abbrev pub KeepsNode : Type 0
  KeepsNode =
      (e : Ptr) (h : Memory)
      → h.node p ≡ some n
      → (h' : Memory) × (kernel e h ≡ some (tt, h')) × (h'.node p ≡ some n)

  module _ (keeps : KeepsNode) (ok : IsBitmask n.free_mask)
      (covers : n.free_mask.num_elements ≡ n.capacity) (small : n.capacity < 2 ^ 63)
      (done total : ℕ) (original : ℕ) (orig : original ≤ n.capacity) (open_ : done < total) where
    read : (i : ℕ) → i < n.capacity → bitmask_get n.free_mask i ≡ some (bit_at n.free_mask i)
    read i lt = bitmask_get-bit_at n.free_mask i (omega (arith, ok.sized, covers))

    -- At a free element the loop turns on the spot until it ends.
    loop_free :
        (fuel i skipped : ℕ) (h : Memory)
        → h.node p ≡ some n
        → i < original
        → bit_at n.free_mask i ≡ mask_free
        → skipped ≤ i + 1
        → i + 1 < fuel + skipped
        → run_kernel_loop kernel p done total original fuel i skipped h ≡ some (i, h)
    unfolding run_kernel_loop load
    loop_free zero i skipped h at_p lt free le enough = absurd (omega arith)
    loop_free (suc fuel) i skipped h at_p lt free le enough =
        elim (Bool-cases (goes_on original n.capacity done total i skipped)) [
          | inl on ↦
              rw (at_p, on, read i (omega arith), free)
                (loop_free fuel i (skipped + 1) h at_p lt free (ground arith) (omega arith))
          | inr off ↦ rw (at_p, off)
        ]

    loop_visits :
        (left fuel i : ℕ) (h : Memory)
        → h.node p ≡ some n
        → i + left ≡ original
        → original + left + 2 ≤ fuel
        → (h' : Memory) × (visit kernel n (live_prefix n.free_mask left i) i h ≡ some (tt, h'))
          × (run_kernel_loop kernel p done total original fuel i 0 h
              ≡ some (i + live_prefix n.free_mask left i, h'))
    unfolding run_kernel_loop load live_prefix visit
    loop_visits left zero i h at_p e enough = absurd (omega arith)
    loop_visits zero (suc fuel) i h at_p e enough =
        let off : goes_on original n.capacity done total i 0 ≡ false = ground arith in
        (h, refl, rw (at_p, off) (ap (λ x. some (x, h)) (omega arith)))
    loop_visits (suc left) (suc fuel) i h at_p e enough =
        let on : goes_on original n.capacity done total i 0 ≡ true = ground arith in
        elim (ℕ_discrete (bit_at n.free_mask i) mask_not_free) [
          | yes in_use ↦
              let (h1, ran, kept) = keeps (get_element n i) h at_p in
              let (h2, visited, rest) =
                loop_visits left fuel (i + 1) h1 kept (omega arith) (omega arith) in
              (
                h2,
                rw (in_use, ran) visited,
                rw (at_p, on, read i (omega arith), in_use, ran, rest)
                    (ap (λ x. some (x, h2)) (omega arith)),
              )
          | no not_used ↦
              let free : bit_at n.free_mask i ≡ mask_free =
                omega (arith, bit-lt (get_or n.free_mask.buckets (i / 64) 0) (63 - i % 64)) in
              (
                h,
                rw free,
                rw (free) (
                    loop_free (suc fuel) i 0 h at_p (omega arith) free (omega arith) (omega arith)
                    ∙ ap (λ x. some (x, h)) (omega arith)),
              )
        ]

-- Where the prefix ends: at the bound, or at a free element.
live_prefix_lem :
    (m : Bitmask) (left i : ℕ)
    → (live_prefix m left i ≤ left)
      × ((j : ℕ) → i ≤ j → j < i + live_prefix m left i → bit_at m j ≡ mask_not_free)
      × ((live_prefix m left i ≡ left) ⊎ (bit_at m (i + live_prefix m left i) ≡ mask_free))
unfolding live_prefix
live_prefix_lem m zero i = (omega arith, λ j lo hi. absurd (omega arith), inl refl)
live_prefix_lem m (suc left) i = elim (ℕ_discrete (bit_at m i) mask_not_free) [
  | yes in_use ↦
      let (le, used, ends) = live_prefix_lem m left (i + 1) in
      rw in_use (
        omega arith,
        λ j lo hi. elim (ℕ_discrete i j) [
          | yes e ↦ rw (← e) in_use
          | no ne ↦ used j (omega arith) (omega arith)
        ],
        ends_later i (live_prefix m left (i + 1)) ends,
      )
  | no not_used ↦
      let free : bit_at m i ≡ mask_free =
        omega (arith, bit-lt (get_or m.buckets (i / 64) 0) (63 - i % 64)) in
      let here : i + 0 ≡ i = omega arith in
      rw free (omega arith, λ j lo hi. absurd (omega arith), inr (rw here free))
]
  where
    ends_later :
        (i k : ℕ)
        → (k ≡ left) ⊎ (bit_at m (i + 1 + k) ≡ mask_free)
        → (suc k ≡ suc left) ⊎ (bit_at m (i + suc k) ≡ mask_free)
    ends_later i k (inl e) = inl (ap suc e)
    ends_later i k (inr e) = let e' : i + suc k ≡ i + 1 + k = omega arith in inr (rw e' e)

-- On a well-formed node, with fewer elements done than asked for, a kernel that does not fault and
-- leaves the node as it is runs on the elements 0 to `k - 1`, each once and in order, all of them
-- in use; `k` of them are added to those done; and the run stops there since `k` is the number of
-- the node's elements, or since element `k` is free. The loop ends within its fuel.
pub run_kernel_on_node_lem :
    (c : Config) (kernel : Ptr → M (Unit {0})) (p : Ptr) (n : Node) (done total : ℕ) (h : Memory)
    → IsNode c p n
    → n.capacity < 2 ^ 63
    → KeepsNode kernel p n
    → h.node p ≡ some n
    → done < total
    → (k : ℕ) × (h' : Memory) × (k ≤ n.num_elements)
      × (visit kernel n k 0 h ≡ some (tt, h'))
      × (run_kernel_on_node kernel p done total h ≡ some (done + k, h'))
      × ((j : ℕ) → j < k → bitmask_get n.free_mask j ≡ some mask_not_free)
      × ((k ≡ n.num_elements) ⊎ (bitmask_get n.free_mask k ≡ some mask_free))
unfolding run_kernel_on_node load
run_kernel_on_node_lem c kernel p n done total h ok small keeps at_p more =
    let few : n.num_elements ≤ n.capacity =
      omega (arith, ok.counted, used-le n.free_mask n.capacity) in
    let (le, in_use, ends) = live_prefix_lem n.free_mask n.num_elements 0 in
    let (h', visited, ran) =
      loop_visits kernel p n keeps ok.mask ok.covers small done total n.num_elements few more
        n.num_elements (2 * n.capacity + 2) 0 h at_p (omega arith) (omega arith) in
    let start : 0 + live_prefix n.free_mask n.num_elements 0
        ≡ live_prefix n.free_mask n.num_elements 0 =
      omega arith in
    (
      live_prefix n.free_mask n.num_elements 0,
      h',
      le,
      visited,
      rw (at_p, ran) (ap (λ x. some (done + x, h')) start),
      λ j lt.
          rw (← in_use j (omega arith) (omega arith))
            (bitmask_get-bit_at n.free_mask j (omega (arith, ok.mask.sized, ok.covers))),
      stops le (rw start at ends),
    )
  where
    stops :
        live_prefix n.free_mask n.num_elements 0 ≤ n.num_elements
        → (live_prefix n.free_mask n.num_elements 0 ≡ n.num_elements)
          ⊎ (bit_at n.free_mask (live_prefix n.free_mask n.num_elements 0) ≡ mask_free)
        → (live_prefix n.free_mask n.num_elements 0 ≡ n.num_elements)
          ⊎ (bitmask_get n.free_mask (live_prefix n.free_mask n.num_elements 0) ≡ some mask_free)
    stops le (inl all) = inl all
    stops le (inr free) = elim (dec_lt (live_prefix n.free_mask n.num_elements 0) n.capacity) [
      | yes within ↦ inr (
          rw (← free) (
            bitmask_get-bit_at n.free_mask (live_prefix n.free_mask n.num_elements 0)
              (omega (arith, ok.mask.sized, ok.covers))))
      | no past ↦ inl (omega (arith, ok.counted, used-le n.free_mask n.capacity))
    ]

-- On a well-formed node whose elements in use are its first ones, with fewer elements done than
-- asked for, a kernel that does not fault and leaves the node as it is runs on each element in
-- use, once and in order, and all are counted as done.
pub run_kernel_on_node-IsCompact :
    (c : Config) (kernel : Ptr → M (Unit {0})) (p : Ptr) (n : Node) (done total : ℕ) (h : Memory)
    → IsNode c p n
    → n.capacity < 2 ^ 63
    → IsCompact n
    → KeepsNode kernel p n
    → h.node p ≡ some n
    → done < total
    → (h' : Memory) × (visit kernel n n.num_elements 0 h ≡ some (tt, h'))
      × (run_kernel_on_node kernel p done total h ≡ some (done + n.num_elements, h'))
run_kernel_on_node-IsCompact c kernel p n done total h ok small compact keeps at_p more =
    every (run_kernel_on_node_lem c kernel p n done total h ok small keeps at_p more)
  where
    reached :
        (k : ℕ) (h' : Memory)
        → k ≡ n.num_elements
        → visit kernel n k 0 h ≡ some (tt, h')
        → run_kernel_on_node kernel p done total h ≡ some (done + k, h')
        → (h' : Memory) × (visit kernel n n.num_elements 0 h ≡ some (tt, h'))
          × (run_kernel_on_node kernel p done total h ≡ some (done + n.num_elements, h'))
    reached k h' all visited ran = (
      h',
      subst (λ x. visit kernel n x 0 h ≡ some (tt, h')) all visited,
      subst (λ x. run_kernel_on_node kernel p done total h ≡ some (done + x, h')) all ran,
    )

    every :
        (k : ℕ) × (h' : Memory) × (k ≤ n.num_elements)
          × (visit kernel n k 0 h ≡ some (tt, h'))
          × (run_kernel_on_node kernel p done total h ≡ some (done + k, h'))
          × ((j : ℕ) → j < k → bitmask_get n.free_mask j ≡ some mask_not_free)
          × ((k ≡ n.num_elements) ⊎ (bitmask_get n.free_mask k ≡ some mask_free))
        → (h' : Memory) × (visit kernel n n.num_elements 0 h ≡ some (tt, h'))
          × (run_kernel_on_node kernel p done total h ≡ some (done + n.num_elements, h'))
    every (k, h', le, visited, ran, in_use, inl all) = reached k h' all visited ran
    every (k, h', le, visited, ran, in_use, inr free) = elim (dec_lt k n.num_elements) [
      | yes lt ↦ cc (compact k lt)
      | no ge ↦ let all : k ≡ n.num_elements = omega arith in reached k h' all visited ran
    ]
