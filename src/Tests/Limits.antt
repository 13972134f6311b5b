-- ===== src/Tests/Limits.antt =====
-- Reservations of storage and permits of two users, and their limits.
use blackglass_server.Base.{ℕ, ◌+◌, ◌≤◌, ◌≡◌, refl, none, List, [], ◌∷◌, nat_eq}
use blackglass_server.Limits.Map.{get, put, remove}
use blackglass_server.Limits.Storage.{
  ReservationState, StorageReservation, no_reservations, reserved, reserved_for_owner, try_reserve,
  release,
}
use blackglass_server.Limits.Storage.Counts.{
  IsCounted, Step, Reachable, Reachable-IsCounted, try_reserve_within_limits,
}
use blackglass_server.Limits.Concurrency.{
  UserConcurrencyEntry, UserConcurrencyKind, connection, upload, UserConcurrencyPermit, try_acquire,
  drop_permit,
}
use blackglass_server.Limits.Concurrency.Bounds
use blackglass_server.Limits.Concurrency.Bounds.{IsBounded, Reachable-IsBounded}

abbrev first : StorageReservation
first = record { owner_user_id = 1; bytes = 5 }

abbrev second : StorageReservation
second = record { owner_user_id = 2; bytes = 4 }

abbrev after_first : ReservationState
after_first = (try_reserve 10 10 1 5 100 50 no_reservations).1

abbrev after_both : ReservationState
after_both = (try_reserve 10 0 2 4 100 50 after_first).1

refused : (try_reserve 92 0 2 4 100 50 after_first) ≡ (none, after_first)
unfolding try_reserve get
refused = refl

released : reserved_for_owner 1 (release first after_both) ≡ 0
unfolding try_reserve release get put remove reserved_for_owner
released = refl

-- Two uploads reserve, and the first ends.
run : Reachable (second ∷ [], release first after_both)
unfolding try_reserve get put
run =
    Reachable.step
      (Reachable.step
        (Reachable.step (Reachable.start _ refl) (Step.reserve 10 10 1 5 100 50 first refl))
        (Step.reserve 10 0 2 4 100 50 second refl))
      (Step.drop_held (second ∷ []) [] first _ _ refl refl)

Reachable-IsCounted_example : IsCounted (second ∷ []) (release first after_both)
Reachable-IsCounted_example = Reachable-IsCounted (second ∷ [], release first after_both) run

try_reserve_example :
    (10 + reserved after_both ≤ 100)
    × (0 + reserved_for_owner 2 after_both ≤ 50)
    × (second.bytes ≡ 4)
    × (second.owner_user_id ≡ 2)
    × (1 ≤ 4)
unfolding try_reserve get put
try_reserve_example = try_reserve_within_limits 10 0 2 4 100 50 after_first after_both second refl

abbrev permit_1 : UserConcurrencyPermit
permit_1 = record { user_id = 1; kind = upload }

abbrev permit_2 : UserConcurrencyPermit
permit_2 = record { user_id = 2; kind = connection }

abbrev two_each : UserConcurrencyKind → ℕ
two_each _ = 2

abbrev entries : List (ℕ × UserConcurrencyEntry)
entries = (try_acquire 2 connection 2 ((try_acquire 1 upload 2 []).1)).1

-- Two users acquire, and the first one's upload ends.
permit_run : Bounds.Reachable two_each (permit_2 ∷ [], drop_permit permit_1 entries)
unfolding try_acquire get put
permit_run =
    Bounds.Reachable.step
      (Bounds.Reachable.step
        (Bounds.Reachable.step (Bounds.Reachable.start _ refl)
          (Bounds.Step.acquire 1 upload permit_1 refl))
        (Bounds.Step.acquire 2 connection permit_2 refl))
      (Bounds.Step.drop_held (permit_2 ∷ []) [] permit_1 _ _ refl refl)

Reachable-IsBounded_example : IsBounded two_each (permit_2 ∷ [], drop_permit permit_1 entries)
Reachable-IsBounded_example =
    Reachable-IsBounded two_each (permit_2 ∷ [], drop_permit permit_1 entries) permit_run

-- The entry of a user without permits goes.
entry_removed : drop_permit permit_1 ((try_acquire 1 upload 2 []).1) ≡ []
unfolding try_acquire drop_permit get put remove
entry_removed = refl
