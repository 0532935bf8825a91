-- ===== src/Set/Choose.antt =====
-- Which list an element is put on.
use puma.Base.{◌≡◌, refl, none, some, List, [], ◌∷◌, ◌⊎◌, inl, inr, Option-cases, Bool-cases}
use puma.Memory.{Ptr, null, Memory, load_list}
use puma.Util.{Config}
use puma.Set.{PumaSet, Domain, min_in_domain, min_in_domains, pumalloc_auto_balancing}

-- From NULL the search stays at NULL, or faults on a list that is not there.
min_in_domain-null :
    (ps : List Ptr) (h : Memory)
    → (min_in_domain ps null h ≡ none) ⊎ (min_in_domain ps null h ≡ some (null, h))
unfolding min_in_domain load_list
min_in_domain-null [] h = inr refl
min_in_domain-null (p ∷ rest) h = elim (Option-cases (h.list p)) [
  | inl missing ↦ inl (rw missing)
  | inr (l, found) ↦ elim (Bool-cases l.active) [
    | inl a ↦ rw (found, a) (min_in_domain-null rest h)
    | inr a ↦ rw (found, a) (min_in_domain-null rest h)
  ]
]

min_in_domains-null :
    (ds : List Domain) (h : Memory)
    → (min_in_domains ds null h ≡ none) ⊎ (min_in_domains ds null h ≡ some (null, h))
unfolding min_in_domains
min_in_domains-null [] h = inr refl
min_in_domains-null (d ∷ rest) h = elim (min_in_domain-null d.lists_in_domain h) [
  | inl fault ↦ inl (rw fault)
  | inr stays ↦ rw stays (min_in_domains-null rest h)
]

-- `pumallocAutoBalancing` faults on every set: no list is ever chosen, since the test that would
-- choose one asks that one is chosen already, and NULL is dereferenced.
pub pumalloc_auto_balancing-none :
    (c : Config) (s : PumaSet) (h : Memory)
    → h.list null ≡ none
    → pumalloc_auto_balancing c s h ≡ none
unfolding pumalloc_auto_balancing
pumalloc_auto_balancing-none c s h no_null = elim (min_in_domains-null s.domains h) [
  | inl fault ↦ rw fault
  | inr stays ↦ rw (stays, no_null)
]
