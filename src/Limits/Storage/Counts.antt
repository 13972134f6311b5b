-- ===== src/Limits/Storage/Counts.antt =====
-- The counters are the sums over the reservations that are held, whatever the order of the uploads.
use blackglass_server.Base.{
  ℕ, ◌+◌, ◌-◌, ◌≤◌, ◌≡◌, refl, Bool, some, List, [], ◌∷◌, ◌++◌, ◌==◌, nat_eq, arith, if◌then◌else◌,
  inl, inr, Option-cases, subst, sym,
}
use blackglass_server.Table.{select, sum_of}
use blackglass_server.Table.Laws.{sum_of-append}
use blackglass_server.Limits.Map.{get, get-put, get-remove, or_default}
use blackglass_server.Limits.Storage.{
  ReservationState, StorageReservation, no_reservations, reserved, reserved_for_owner, try_reserve,
  release,
}

abbrev pub bytes_of : StorageReservation → ℕ
bytes_of r = r.bytes

abbrev pub is_of : ℕ → StorageReservation → Bool
is_of owner r = r.owner_user_id == owner

-- The counters as sums over the held reservations.
pub record IsCounted (held : List StorageReservation) (state : ReservationState) : Type 0 where
  pub global : reserved state ≡ sum_of bytes_of held
  pub by_owner :
      (owner : ℕ) → reserved_for_owner owner state ≡ sum_of bytes_of (select (is_of owner) held)

-- The system of all uploads: one of them reserves, or one that holds a reservation drops it.
pub data Step
    : List StorageReservation × ReservationState
      → List StorageReservation × ReservationState
      → Type 0 where
  reserve :
      {held : List StorageReservation} {state state' : ReservationState}
      (committed_global committed_owner owner additional global_limit owner_limit : ℕ)
      (r : StorageReservation)
      → try_reserve committed_global committed_owner owner additional global_limit owner_limit state
        ≡ (some r, state')
      → Step (held, state) (r ∷ held, state')
  drop_held :
      {state : ReservationState} (before after : List StorageReservation) (r : StorageReservation)
      (held kept : List StorageReservation)
      → held ≡ before ++ r ∷ after
      → kept ≡ before ++ after
      → Step (held, state) (kept, release r state)

pub data Reachable : List StorageReservation × ReservationState → Type 0 where
  start : (s : List StorageReservation × ReservationState) → s ≡ ([], no_reservations) → Reachable s
  step : {s t : List StorageReservation × ReservationState} → Reachable s → Step s t → Reachable t

pub reserve-IsCounted :
    (committed_global committed_owner owner additional global_limit owner_limit : ℕ)
    (held : List StorageReservation) (state state' : ReservationState) (r : StorageReservation)
    → try_reserve committed_global committed_owner owner additional global_limit owner_limit state
      ≡ (some r, state')
    → IsCounted held state
    → IsCounted (r ∷ held) state'
unfolding try_reserve reserved sum_of select reserved_for_owner
reserve-IsCounted committed_global committed_owner owner additional global_limit owner_limit held
      state state' r e h =
    record {
      global = ground (arith, h.global);
      by_owner = λ o. ground (
        arith,
        h.by_owner o,
        h.by_owner owner,
        get-put owner o (or_default 0 (get owner state.owner_bytes) + additional) state.owner_bytes,
      );
    }

-- A reservation that is dropped from between others takes its bytes out of a sum.
sum_of-without :
    (f : StorageReservation → ℕ) (before after : List StorageReservation) (r : StorageReservation)
    → sum_of f (before ++ r ∷ after) ≡ sum_of f (before ++ after) + f r
unfolding sum_of
sum_of-without f before after r =
    omega (arith, sum_of-append f before (r ∷ after), sum_of-append f before after)

select-without :
    (owner : ℕ) (before after : List StorageReservation) (r : StorageReservation)
    → sum_of bytes_of (select (is_of owner) (before ++ r ∷ after))
      ≡ sum_of bytes_of (select (is_of owner) (before ++ after))
        + (if is_of owner r then r.bytes else 0)
unfolding sum_of select
select-without owner [] after r = ground arith
select-without owner (x ∷ before) after r = ground (arith, select-without owner before after r)

pub release-owner :
    (owner : ℕ) (r : StorageReservation) (state : ReservationState)
    → reserved_for_owner owner (release r state)
      ≡ reserved_for_owner owner state - (if is_of owner r then r.bytes else 0)
unfolding reserved_for_owner release
release-owner owner r state = elim (Option-cases (get r.owner_user_id state.owner_bytes)) [
  | inl e ↦ ground (arith, e)
  | inr (held, e) ↦ ground (
    arith,
    e,
    get-put r.owner_user_id owner (held - r.bytes) state.owner_bytes,
    get-remove r.owner_user_id owner state.owner_bytes,
  )
]

release-IsCounted :
    (before after : List StorageReservation) (r : StorageReservation) (state : ReservationState)
    → IsCounted (before ++ r ∷ after) state
    → IsCounted (before ++ after) (release r state)
unfolding release reserved
release-IsCounted before after r state h = record {
  global = omega (arith, h.global, sum_of-without bytes_of before after r);
  by_owner =
      λ o. omega (arith, h.by_owner o, select-without o before after r, release-owner o r state);
}

Step-IsCounted :
    (s t : List StorageReservation × ReservationState)
    → Step s t
    → IsCounted s.0 s.1
    → IsCounted t.0 t.1
Step-IsCounted s t (reserve {held} {state} {state'} cg co owner additional gl ol r e) h =
    reserve-IsCounted cg co owner additional gl ol held state state' r e h
Step-IsCounted s t (drop_held {state} before after r held kept e k) h =
    subst (λ hs. IsCounted hs (release r state)) (sym k)
      (release-IsCounted before after r state (subst (λ hs. IsCounted hs state) e h))

-- In every state that reservations and drops in any order lead to, the global counter is the sum of
-- the bytes of the reservations held, and the counter of each owner the sum of those that are its.
pub Reachable-IsCounted :
    (s : List StorageReservation × ReservationState) → Reachable s → IsCounted s.0 s.1
unfolding reserved reserved_for_owner get sum_of select
Reachable-IsCounted s (start _ e) =
    subst (λ t. IsCounted t.0 t.1) (sym e) record { global = refl; by_owner = λ o. refl }
Reachable-IsCounted t (step {s} r h) = Step-IsCounted s t h (Reachable-IsCounted s r)

-- A reservation that is granted leaves the stored bytes and all bytes then reserved within the global
-- limit, and those of the owner within the owner's; it is for the bytes asked for, which are some.
pub try_reserve_within_limits :
    (committed_global committed_owner owner additional global_limit owner_limit : ℕ)
    (state state' : ReservationState) (r : StorageReservation)
    → try_reserve committed_global committed_owner owner additional global_limit owner_limit state
      ≡ (some r, state')
    → (committed_global + reserved state' ≤ global_limit)
      × (committed_owner + reserved_for_owner owner state' ≤ owner_limit)
      × (r.bytes ≡ additional)
      × (r.owner_user_id ≡ owner)
      × (1 ≤ additional)
unfolding try_reserve reserved reserved_for_owner
try_reserve_within_limits committed_global committed_owner owner additional global_limit owner_limit
      state state' r e =
    let before = or_default 0 (get owner state.owner_bytes) in
    ground (arith, get-put owner owner (before + additional) state.owner_bytes)
