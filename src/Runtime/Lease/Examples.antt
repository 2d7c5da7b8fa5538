-- ===== src/Runtime/Lease/Examples.antt =====
-- Runs of the lease manager, and its theorems at concrete inputs.
use general_ai_core.Prelude.{◌≡◌, refl, List, [], ◌∷◌, nat_eq, string_eq, ok, after, ◌↔◌}
use general_ai_core.Runtime.Lease.{Lease, LeaseManager, init, acquire, renew, release}
use general_ai_core.Runtime.Lease.Laws.{Holds, IsLive, renew_exactly}
use general_ai_core.Runtime.Lease.Fencing.{
  Call, acquires, releases, run, issued, lost_forever, IsAscendingFrom, issued_ascending,
}

abbrev first_lease : Lease
first_lease = record { resource = "account"; owner = "a"; fencing_token = 1; ttl_seconds = 10 }

abbrev held_once : LeaseManager
held_once = record {
  token = 2;
  held = ("account", record { owner = "a"; fencing_token = 1; expires_at = 15 }) ∷ [];
}

abbrev second_lease : Lease
second_lease = record { resource = "account"; owner = "b"; fencing_token = 2; ttl_seconds = 10 }

abbrev held_twice : LeaseManager
held_twice = record {
  token = 3;
  held = ("account", record { owner = "b"; fencing_token = 2; expires_at = 30 }) ∷ [];
}

abbrev history : List Call
history =
    acquires 5 "account" "a" 10
    ∷ acquires 6 "account" "b" 10
    ∷ acquires 20 "account" "b" 10
    ∷ releases 21 first_lease
    ∷ acquires 22 "account" "b" 10
    ∷ []

-- The second call is refused, the third takes the expired lease over, the release is too late.
issued-history : issued history init ≡ 1 ∷ 2 ∷ 3 ∷ []
unfolding issued acquire release
issued-history = refl

issued_ascending_example : IsAscendingFrom 1 (issued history init)
issued_ascending_example = issued_ascending history

renew_exactly_example :
    (IsLive 7 first_lease held_once ↔ (
      (m' : LeaseManager) × (renew 7 first_lease 20 held_once
        ≡ ok (record first_lease { ttl_seconds = 20 }, m'))))
    × (IsLive 7 first_lease held_once
        ↔ ((m' : LeaseManager) × (release 7 first_lease held_once ≡ ok (tt, m'))))
renew_exactly_example = renew_exactly 7 20 first_lease held_once

lost_forever_example :
    (¬ Holds 40 first_lease (
      run [] (
        after
          (run (acquires 5 "account" "a" 10 ∷ []) init)
          (release 7 first_lease (run (acquires 5 "account" "a" 10 ∷ []) init)))))
    × (¬ Holds 40 first_lease (run [] held_twice))
unfolding run acquire
lost_forever_example =
    lost_forever (acquires 5 "account" "a" 10 ∷ []) [] 7 20 40 first_lease second_lease "b" 10
      held_twice refl refl
