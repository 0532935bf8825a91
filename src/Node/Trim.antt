-- ===== src/Node/Trim.antt =====
-- The inactive node behind a node that is less than half full.
use puma.Base.{
  ◌/◌, ◌≤◌, ◌<◌, ◌≡◌, ◌≢◌, refl, arith, true, false, some, none, ◌⊎◌, inl, inr, ltb, ◌==◌,
  if◌then◌else◌, Bool-cases,
}
use puma.Memory.{Ptr, null, Node, ThreadList, Memory, update}
use puma.Util.{Config}
use puma.Node.{trim, drop_next}

-- A node that is at least half full, or has none behind it, or an active one, is left as it is.
pub trim-keeps :
    (c : Config) (p : Ptr) (n : Node) (h : Memory)
    → h.node p ≡ some n
    → (n.capacity / 2 ≤ n.num_elements)
      ⊎ ((n.next ≡ null) ⊎ ((s : Node) × (h.node n.next ≡ some s) × (s.active ≡ true)))
    → trim c p h ≡ some (tt, h)
unfolding trim
trim-keeps c p n h at_p (inl full) =
    let no_room : ltb n.num_elements (n.capacity / 2) ≡ false = ground arith in rw (at_p, no_room)
trim-keeps c p n h at_p (inr (inl last)) = elim (Bool-cases (ltb n.num_elements (n.capacity / 2))) [
  | inl low ↦ rw (at_p, low, last)
  | inr high ↦ rw (at_p, high)
]
trim-keeps c p n h at_p (inr (inr (s, there, live))) =
    elim (Bool-cases (ltb n.num_elements (n.capacity / 2))) [
      | inl low ↦ elim (Bool-cases (n.next == null)) [
        | inl last ↦ rw (at_p, low, last)
        | inr more ↦ rw (at_p, low, more, there, live)
      ]
      | inr high ↦ rw (at_p, high)
    ]

-- `p` and `q` are nodes of a list, linked with each other, the one at `q` behind.
pub record IsBehind (p q : Ptr) (n s : Node) (l : ThreadList) (h : Memory) : Type 0 where
  pub at_p : h.node p ≡ some n
  pub at_q : h.node q ≡ some s
  pub in_list : h.list s.thread_list ≡ some l
  pub behind : n.next ≡ q
  pub back : s.prev ≡ p
  pub p_live : (p == null) ≡ false
  pub q_live : (q == null) ≡ false
  pub other : p ≢ q

module _ (c : Config) (p q : Ptr) (n s : Node) (l : ThreadList) (h : Memory)
    (linked : IsBehind p q n s l h) where
  open linked use {at_p, at_q, in_list, behind, back, p_live, q_live, other}

  -- The list without the node at `q`.
  abbrev shorter : ThreadList
  shorter = record l {
    tail = if q == l.tail then p else l.tail;
    head = if q == l.head then s.next else l.head;
  }

  abbrev after_last : Memory
  after_last = record h {
    node =
        update (update (update h.node p (some (record n { next = null }))) q none) p
          (some (record n { next = null }));
    list = update h.list s.thread_list (some shorter);
  }

  drop_last : s.next ≡ null → drop_next c p q h ≡ some (tt, after_last)
  unfolding drop_next
  drop_last last =
      let apart : (q == p) ≡ false = ground arith in
      let same : (p == p) ≡ true = ground arith in
      rw (at_q, in_list, back, p_live, at_p, last, apart, same)

  trim_drops :
      n.num_elements < n.capacity / 2
      → s.active ≡ false
      → (r : Memory) → drop_next c p q h ≡ some (tt, r)
      → trim c p h ≡ some (tt, r)
  unfolding trim
  trim_drops low inactive r dropped =
      let is_low : ltb n.num_elements (n.capacity / 2) ≡ true = ground arith in
      rw (at_p, is_low, behind, q_live, at_q, inactive) dropped

  module _ (r : Ptr) (t : Node) (s_next : s.next ≡ r) (r_live : (r == null) ≡ false)
      (at_r : h.node r ≡ some t) (not_p : r ≢ p) (not_q : r ≢ q) where
    abbrev after_middle : Memory
    after_middle = record h {
      node =
          update
            (update
              (update (update h.node p (some (record n { next = r }))) r
                (some (record t { prev = p })))
              q none)
            p (some (record n { next = null }));
      list = update h.list s.thread_list (some shorter);
    }

    drop_middle : drop_next c p q h ≡ some (tt, after_middle)
    unfolding drop_next
    drop_middle =
        let apart : (q == p) ≡ false = ground arith in
        let apart_r : (p == r) ≡ false = ground arith in
        let apart_rp : (r == p) ≡ false = ground arith in
        let same : (p == p) ≡ true = ground arith in
        rw (at_q, in_list, back, p_live, at_p, s_next, r_live, apart_r, at_r, apart, apart_rp, same)

-- A node less than half full, behind which there is an inactive node and none behind that: the
-- inactive node is freed, and none is behind the first any more. The list's tail and head move if
-- they were the freed node, and nothing else changes.
pub trim-last :
    (c : Config) (p q : Ptr) (n s : Node) (l : ThreadList) (h : Memory)
    → IsBehind p q n s l h
    → n.num_elements < n.capacity / 2
    → s.active ≡ false
    → s.next ≡ null
    → (h' : Memory) × (trim c p h ≡ some (tt, h'))
      × (h'.node q ≡ none)
      × (h'.node p ≡ some (record n { next = null }))
      × ((o : Ptr) → o ≢ p → o ≢ q → h'.node o ≡ h.node o)
      × (h'.list
          ≡ update h.list s.thread_list (
              some (record l {
                tail = if q == l.tail then p else l.tail;
                head = if q == l.head then s.next else l.head;
              })))
trim-last c p q n s l h linked low inactive last = (
  after_last c p q n s l h linked,
  trim_drops c p q n s l h linked low inactive _ (drop_last c p q n s l h linked last),
  ground (arith, linked.other),
  ground arith,
  λ o not_p not_q. ground arith,
  refl,
)

-- A node less than half full, behind which there is an inactive node, and behind that one at `r`: the
-- inactive node is freed, and the one at `r` is still there and names the first node as that before
-- it, while the first node names none behind it, so that `r` and what is behind it are cut off.
pub trim-cut_off :
    (c : Config) (p q r : Ptr) (n s t : Node) (l : ThreadList) (h : Memory)
    → IsBehind p q n s l h
    → n.num_elements < n.capacity / 2
    → s.active ≡ false
    → s.next ≡ r
    → (r == null) ≡ false
    → h.node r ≡ some t
    → r ≢ p
    → r ≢ q
    → (h' : Memory) × (trim c p h ≡ some (tt, h'))
      × (h'.node q ≡ none)
      × (h'.node p ≡ some (record n { next = null }))
      × (h'.node r ≡ some (record t { prev = p }))
      × ((o : Ptr) → o ≢ p → o ≢ q → o ≢ r → h'.node o ≡ h.node o)
trim-cut_off c p q r n s t l h linked low inactive s_next r_live at_r not_p not_q = (
  after_middle c p q n s l h linked r t s_next r_live at_r not_p not_q,
  trim_drops c p q n s l h linked low inactive _
      (drop_middle c p q n s l h linked r t s_next r_live at_r not_p not_q),
  ground (arith, linked.other),
  ground arith,
  ground (arith, not_p, not_q),
  λ o a b d. ground arith,
)
