-- ===== src/Barrier/Groups.antt =====
-- Threads pass the barrier in whole groups, if none is woken without a broadcast.
use native.Mathlib.Nat.{
  mul-le-mul_right, lt_of_mul-lt-mul_right, add-mul-mod_self_right, mod-eq_of_lt, mul-mod_left,
}
use puma.Base.{
  ℕ, zero, suc, ◌+◌, ◌*◌, ◌%◌, ◌^◌, ◌≤◌, ◌<◌, ◌≡◌, refl, ap, sym, ◌∙◌, arith, Bool, true, false,
  some, leb, inl, inr, Bool-cases, dec_lt,
}
use puma.Barrier.{
  trip_of, Barrier, barrier_init, System, arrive, leave, wake, Step, arrives, leaves, wakes, init,
  Reach, start, next,
}

-- After `rounds` whole groups of `n`.
record IsInRound (n : ℕ) (s : System) : Type 0 where
  rounds : ℕ
  trip : s.barrier.trip_count ≡ n
  counted : s.barrier.count ≡ s.barrier.sleeping
  below : s.barrier.sleeping < n
  through : s.passed + s.barrier.awake ≡ rounds * n
  here : s.arrived ≡ rounds * n + s.barrier.sleeping

barrier_init-IsInRound :
    {n : ℕ} (m k : Bool) {b : Barrier}
    → n < 2 ^ 31
    → barrier_init n m k ≡ some b
    → IsInRound n (init b)
unfolding barrier_init trip_of
barrier_init-IsInRound {n} m k {b} small e = record {
  rounds = 0;
  trip = ground arith;
  counted = ground arith;
  below = ground arith;
  through = ground arith;
  here = ground arith;
}

one_more : (r n : ℕ) → (r + 1) * n ≡ r * n + n
one_more r n = grind arith

arrive-IsInRound : {n : ℕ} (s : System) → IsInRound n s → IsInRound n (arrive s)
unfolding arrive
arrive-IsInRound {n} s i = elim (Bool-cases (leb s.barrier.trip_count (s.barrier.count + 1))) [
  | inl full ↦ rw full (record {
    rounds = i.rounds + 1;
    trip = i.trip;
    counted = refl;
    below = omega (arith, i.below);
    through = ground (arith, one_more i.rounds n, i.through, i.below, i.counted, i.trip);
    here = ground (arith, one_more i.rounds n, i.here, i.below, i.counted, i.trip);
  })
  | inr waits ↦ rw waits (record {
    rounds = i.rounds;
    trip = i.trip;
    counted = omega (arith, i.counted);
    below = ground (arith, i.counted, i.trip);
    through = omega (arith, i.through);
    here = omega (arith, i.here);
  })
]

leave-IsInRound : {n : ℕ} (s : System) → 0 < s.barrier.awake → IsInRound n s → IsInRound n (leave s)
unfolding leave
leave-IsInRound s lt i = record {
  rounds = i.rounds;
  trip = i.trip;
  counted = i.counted;
  below = i.below;
  through = omega (arith, i.through);
  here = i.here;
}

Step-IsInRound : {n : ℕ} {s t : System} → Step false s t → IsInRound n s → IsInRound n t
Step-IsInRound (arrives s) i = arrive-IsInRound s i
Step-IsInRound (leaves s lt) i = leave-IsInRound s lt i
Step-IsInRound (wakes s allowed lt) i = absurd (ground arith)

Reach-IsInRound :
    {n : ℕ} (m k : Bool) {b : Barrier} {s : System}
    → n < 2 ^ 31
    → barrier_init n m k ≡ some b
    → Reach false b s
    → IsInRound n s
Reach-IsInRound m k small made start = barrier_init-IsInRound m k small made
Reach-IsInRound m k small made (next r step) =
    Step-IsInRound step (Reach-IsInRound m k small made r)

-- At a barrier whose count does not fit, no thread waits.
record IsOpen (s : System) : Type 0 where
  trip : s.barrier.trip_count ≡ 0
  asleep : s.barrier.sleeping ≡ 0
  through : s.passed + s.barrier.awake ≡ s.arrived

barrier_init-IsOpen :
    {n : ℕ} (m k : Bool) {b : Barrier} → 2 ^ 31 ≤ n → barrier_init n m k ≡ some b → IsOpen (init b)
unfolding barrier_init trip_of
barrier_init-IsOpen {n} m k {b} large e = record {
  trip = ground arith;
  asleep = ground arith;
  through = ground arith;
}

Step-IsOpen : {s t : System} → Step false s t → IsOpen s → IsOpen t
unfolding arrive leave
Step-IsOpen (arrives s) i =
    let full : leb s.barrier.trip_count (s.barrier.count + 1) ≡ true = ground (arith, i.trip) in
    rw full (record { trip = i.trip; asleep = refl; through = omega (arith, i.through, i.asleep) })
Step-IsOpen (leaves s lt) i = record {
  trip = i.trip;
  asleep = i.asleep;
  through = omega (arith, i.through, lt);
}
Step-IsOpen (wakes s allowed lt) i = absurd (ground arith)

Reach-IsOpen :
    {n : ℕ} (m k : Bool) {b : Barrier} {s : System}
    → 2 ^ 31 ≤ n
    → barrier_init n m k ≡ some b
    → Reach false b s
    → IsOpen s
Reach-IsOpen m k large made start = barrier_init-IsOpen m k large made
Reach-IsOpen m k large made (next r step) = Step-IsOpen step (Reach-IsOpen m k large made r)

-- At a barrier for fewer than 2 ^ 31 threads, where no thread is woken without a broadcast, in every
-- order of calls and returns: if more than `g` whole groups of calls of `pthread_barrier_wait` have returned, then all calls of group `g + 1`
-- have been made.
pub barrier_wait-Groups :
    (n : ℕ) (m k : Bool) (b : Barrier) (s : System) (g : ℕ)
    → n < 2 ^ 31
    → barrier_init n m k ≡ some b
    → Reach false b s
    → g * n < s.passed
    → (g + 1) * n ≤ s.arrived
barrier_wait-Groups n m k b s g small made r more =
    let i = Reach-IsInRound m k small made r in
    let low : g < i.rounds = lt_of_mul-lt-mul_right n (omega (arith, i.through)) in
    let all : (g + 1) * n ≤ i.rounds * n = mul-le-mul_right n (omega arith) in omega (arith, i.here)

-- All that are awake leave.
let_go :
    {b : Barrier} (left : ℕ) (s : System)
    → s.barrier.awake ≡ left
    → Reach false b s
    → (t : System) × Reach false b t × (t.arrived ≡ s.arrived) × (t.passed ≡ s.passed + left)
unfolding leave
let_go zero s e r = (s, r, refl, omega arith)
let_go (suc left) s e r =
    let (t, gone, same, through) =
      let_go left (leave s) (omega arith) (next r (leaves s (omega arith))) in
    (t, gone, same, omega arith)

-- Where no thread is woken without a broadcast, a state in which whole groups of calls have been
-- made is followed by one in which all of them have returned, without another call.
pub barrier_wait-release :
    (n : ℕ) (m k : Bool) (b : Barrier) (s : System) (g : ℕ)
    → barrier_init n m k ≡ some b
    → Reach false b s
    → s.arrived ≡ g * n
    → (t : System) × Reach false b t × (t.arrived ≡ s.arrived) × (t.passed ≡ s.arrived)
barrier_wait-release n m k b s g made r whole =
    let (t, gone, same, through) = let_go s.barrier.awake s refl r in
    elim (dec_lt n (2 ^ 31)) [
      | yes small ↦
          let i = Reach-IsInRound m k small made r in
          let none_left : s.barrier.sleeping ≡ 0 =
            sym (mod-eq_of_lt i.below)
            ∙ sym (add-mul-mod_self_right s.barrier.sleeping i.rounds n)
            ∙ ap (λ x. x % n) (omega (arith, i.here))
            ∙ mul-mod_left g n in
          (t, gone, same, omega (arith, through, none_left, i.here, i.through))
      | no large ↦
          let i = Reach-IsOpen m k (omega (arith, large)) made r in
          (t, gone, same, omega (arith, through, i.through))
    ]

-- A thread that the system wakes without a broadcast returns: for every group of more than one, a
-- call can return when it is the only one that has been made.
pub barrier_wait-spurious :
    (n : ℕ) (m k : Bool) (b : Barrier)
    → barrier_init n m k ≡ some b
    → 1 < n
    → (s : System) × Reach true b s × (s.arrived ≡ 1) × (s.passed ≡ 1)
unfolding arrive wake leave
barrier_wait-spurious n m k b made more = elim (dec_lt n (2 ^ 31)) [
  | yes small ↦
      let i = barrier_init-IsInRound m k small made in
      let waits : leb b.trip_count (b.count + 1) ≡ false =
        ground (arith, i.trip, i.counted, i.here) in
      (
        leave (wake (arrive (init b))),
        next
            (next (next start (arrives (init b)))
              (wakes (arrive (init b)) refl (rw waits (omega arith))))
            (leaves (wake (arrive (init b))) (omega arith)),
        refl,
        rw waits refl,
      )
  | no large ↦
      let i = barrier_init-IsOpen m k (omega (arith, large)) made in
      let goes : leb b.trip_count (b.count + 1) ≡ true = ground (arith, i.trip) in
      (arrive (init b), next start (arrives (init b)), refl, rw goes refl)
]
