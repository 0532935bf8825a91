-- ===== src/Tests/Barrier.antt =====
-- The theorems on the barrier for groups of two.
use puma.Base.{◌+◌, ◌*◌, ◌≤◌, ◌≡◌, refl, arith, true, false, some}
use puma.Barrier.{
  Barrier, barrier_init, barrier_wait, System, arrive, init, Reach, start, next, arrives,
}
use puma.Barrier.Groups.{barrier_wait-Groups, barrier_wait-release, barrier_wait-spurious}

abbrev for_two : Barrier
for_two = record { count = 0; trip_count = 2; sleeping = 0; awake = 0 }

for_two_made : barrier_init 2 true true ≡ some for_two
unfolding barrier_init puma.Barrier.trip_of
for_two_made = refl

-- Both have called, and the second has returned.
abbrev both : System
both = record { barrier = record for_two { awake = 1 }; arrived = 2; passed = 1 }

both-Reach : Reach false for_two both
unfolding arrive barrier_wait
both-Reach = next (next start (arrives (init for_two))) (arrives (arrive (init for_two)))

barrier_wait-Groups_example : (0 + 1) * 2 ≤ 2
barrier_wait-Groups_example =
    barrier_wait-Groups 2 true true for_two both 0 (omega arith) for_two_made both-Reach
      (omega arith)

barrier_wait-release_example :
    (t : System) × Reach false for_two t × (t.arrived ≡ 2) × (t.passed ≡ 2)
barrier_wait-release_example =
    barrier_wait-release 2 true true for_two both 1 for_two_made both-Reach refl

barrier_wait-spurious_example :
    (s : System) × Reach true for_two s × (s.arrived ≡ 1) × (s.passed ≡ 1)
barrier_wait-spurious_example = barrier_wait-spurious 2 true true for_two for_two_made (omega arith)
