-- ===== src/Set/Destroy/Freed.antt =====
-- Which nodes the destruction of a set frees.
use puma.Base.{
  ℕ, zero, suc, ◌<◌, ◌≡◌, refl, ap, ◌∙◌, arith, Bool, true, false, none, some, Option, List, [],
  ◌∷◌, ◌==◌, ◌||◌, ◌++◌, if◌then◌else◌, length, ℕ_discrete,
}
use puma.Memory.{Ptr, null, Node, ThreadList, Memory, update}
use puma.Node.Chain.{Cells, first_of, Linked, Linked-frame, has, has-++, Apart, Apart-++}
use puma.Set.{PumaSet, Domain, get_list_for_thread, execute_on_thread_pool}
use puma.Set.Destroy.{
  destroy_nodes, destroy_thread_list_worker, free_lists, destroy_domain, destroy_domains,
  destroy_puma_set,
}

abbrev freed : Cells → (Ptr → Option Node) → Ptr → Option Node
freed cells m q = if has q cells then none else m q

-- The loop frees the nodes of the chain, and no other.
destroy_nodes-freed :
    (cells : Cells) (before : Ptr) (fuel : ℕ) (h : Memory)
    → Linked h.node before cells null
    → Apart cells
    → length cells < fuel
    → (h' : Memory) × (destroy_nodes fuel (first_of cells null) h ≡ some (tt, h'))
      × ((q : Ptr) → h'.node q ≡ freed cells h.node q)
      × (h'.list ≡ h.list)
unfolding destroy_nodes
destroy_nodes-freed cells before zero h linked apart enough = absurd (omega arith)
destroy_nodes-freed [] before (suc fuel) h linked apart enough = (h, refl, λ q. refl, refl)
destroy_nodes-freed ((p, n) ∷ rest) before (suc fuel) h (at_p, live, back, forward, others) apart
      enough =
    let h1 = record h { node = update h.node p none } in
    let (h', ran, gone, lists) =
      destroy_nodes-freed rest p fuel h1
        (Linked-frame h.node h1.node p null rest (λ q at. ground (arith, apart.0)) others) apart.1
        (omega arith) in
    (
      h',
      rw (live, at_p, forward) ran,
      λ q. elim (ℕ_discrete p q) [
        | yes same ↦ ground (arith, gone q)
        | no ne ↦ ground (arith, gone q)
      ],
      lists,
    )

abbrev among : Ptr → List Ptr → Bool
among q [] = false
among q (p ∷ rest) = (p == q) || among q rest

-- Whether a list of the domains is at `q`.
abbrev pub in_domains : Ptr → List Domain → Bool
in_domains q [] = false
in_domains q (d ∷ rest) = among q d.lists_in_domain || in_domains q rest

destroy_domain-freed :
    (ps : List Ptr) (h : Memory)
    → (h' : Memory) × (free_lists ps h ≡ some (tt, h'))
      × (h'.node ≡ h.node)
      × ((q : Ptr) → h'.list q ≡ (if among q ps then none else h.list q))
unfolding free_lists
destroy_domain-freed [] h = (h, refl, refl, λ q. refl)
destroy_domain-freed (p ∷ rest) h =
    let (h', ran, nodes, gone) =
      destroy_domain-freed rest (record h { list = update h.list p none }) in
    (h', ran, nodes, λ q. ground (arith, gone q))

destroy_domains-freed :
    (ds : List Domain) (h : Memory)
    → (h' : Memory) × (destroy_domains ds h ≡ some (tt, h'))
      × (h'.node ≡ h.node)
      × ((q : Ptr) → h'.list q ≡ (if in_domains q ds then none else h.list q))
unfolding destroy_domains destroy_domain
destroy_domains-freed [] h = (h, refl, refl, λ q. refl)
destroy_domains-freed (d ∷ rest) h =
    let (h1, ran, nodes, gone) = destroy_domain-freed d.lists_in_domain h in
    let (h', ran', nodes', gone') = destroy_domains-freed rest h1 in
    (h', rw ran ran', nodes' ∙ nodes, λ q. ground (arith, gone q, gone' q))

-- Thread `t` has a list of the nodes `cells`, fewer than `fuel`.
pub record HasChain (s : PumaSet) (fuel : ℕ) (h : Memory) (t : ℕ) (cells : Cells) : Type 0 where
  pub list : Ptr
  pub l : ThreadList
  pub at_list : (g : Memory) → get_list_for_thread s t g ≡ some (list, g)
  pub in_list : h.list list ≡ some l
  pub linked : Linked h.node null cells null
  pub head : l.head ≡ first_of cells null
  pub few : length cells < fuel

module _ (s : PumaSet) (fuel : ℕ) (cells : ℕ → Cells) where
  abbrev pub HaveChains : Memory → List ℕ → Type 0
  HaveChains h [] = Unit
  HaveChains h (t ∷ rest) = HasChain s fuel h t (cells t) × HaveChains h rest

  abbrev pub all_cells : List ℕ → Cells
  all_cells [] = []
  all_cells (t ∷ rest) = cells t ++ all_cells rest

  HaveChains-frame :
      (h h' : Memory) (order : List ℕ)
      → ((q : Ptr) → has q (all_cells order) ≡ true → h'.node q ≡ h.node q)
      → h'.list ≡ h.list
      → HaveChains h order
      → HaveChains h' order
  HaveChains-frame h h' [] same lists have = tt
  HaveChains-frame h h' (t ∷ rest) same lists (now, later) = (
    record {
      list = now.list;
      l = now.l;
      at_list = now.at_list;
      in_list = ap (λ (m : Ptr → Option ThreadList). m now.list) lists ∙ now.in_list;
      linked =
          Linked-frame h.node h'.node null null (cells t)
            (λ q at.
              let both = has-++ q (cells t) (all_cells rest) in same q (ground (arith, both, at)))
            now.linked;
      head = now.head;
      few = now.few;
    },
    HaveChains-frame h h' rest
        (λ q at.
          let both = has-++ q (cells t) (all_cells rest) in same q (ground (arith, both, at)))
        lists later,
  )

  one_worker :
      (t : ℕ) (h : Memory)
      → HasChain s fuel h t (cells t)
      → Apart (cells t)
      → (h' : Memory) × (destroy_thread_list_worker s fuel t tt h ≡ some (tt, h'))
        × ((q : Ptr) → h'.node q ≡ freed (cells t) h.node q)
        × (h'.list ≡ h.list)
  unfolding destroy_thread_list_worker
  one_worker t h have apart =
      let (h', ran, gone, lists) =
        destroy_nodes-freed (cells t) null fuel h have.linked apart have.few in
      (h', rw (have.at_list h, have.in_list, have.head) ran, gone, lists)

  workers-freed :
      (order : List ℕ) (h : Memory)
      → HaveChains h order
      → Apart (all_cells order)
      → (h' : Memory) × (execute_on_thread_pool (destroy_thread_list_worker s fuel) order tt h
          ≡ some (tt, h'))
        × ((q : Ptr) → h'.node q ≡ freed (all_cells order) h.node q)
        × (h'.list ≡ h.list)
  unfolding execute_on_thread_pool
  workers-freed [] h have apart = (h, refl, λ q. refl, refl)
  workers-freed (t ∷ rest) h (now, later) apart =
      let (apart_t, apart_rest, cross) = Apart-++ (cells t) (all_cells rest) apart in
      let (h1, ran, gone, lists) = one_worker t h now apart_t in
      let (h', ran', gone', lists') =
        workers-freed rest h1
          (HaveChains-frame h h1 rest (λ q at. ground (arith, gone q, cross q at)) lists later)
          apart_rest in
      (
        h',
        rw ran ran',
        λ q.
            let both = has-++ q (cells t) (all_cells rest) in ground (arith, both, gone q, gone' q),
        lists' ∙ lists,
      )

  -- When each list that the workers go through leads from its head over fewer nodes than the fuel to
  -- NULL, and no node is met twice, in the same or another list or by a thread that runs twice, the
  -- destruction of the set ends without a fault, whatever the order of the workers. It frees every
  -- one of these nodes and every thread list of the domains, and changes no other node or list.
  pub destroy_puma_set-freed :
      (order : List ℕ) (h : Memory)
      → HaveChains h order
      → Apart (all_cells order)
      → (h' : Memory) × (destroy_puma_set s fuel order h ≡ some (tt, h'))
        × ((q : Ptr) → h'.node q ≡ (if has q (all_cells order) then none else h.node q))
        × ((q : Ptr) → h'.list q ≡ (if in_domains q s.domains then none else h.list q))
  unfolding destroy_puma_set
  destroy_puma_set-freed order h have apart =
      let (h1, ran, gone, lists) = workers-freed order h have apart in
      let (h', ran', nodes, gone') = destroy_domains-freed s.domains h1 in
      (
        h',
        rw ran ran',
        λ q. ap (λ (m : Ptr → Option Node). m q) nodes ∙ gone q,
        λ q. rw (← lists) (gone' q),
      )
