-- ===== src/Limits/Source/Steps.antt =====
-- Every run of sign-ins and websockets keeps the bounds of `SourceLimits`.
use blackglass_server.Base.{
  ℕ, suc, ◌+◌, ◌-◌, ◌≤◌, ◌≡◌, inl, inr, refl, sym, subst, Bool, false, not, ◌&&◌, List, [], ◌∷◌,
  ◌++◌, arith, leb, ◌==◌, nat_eq, is_some, if◌then◌else◌, length, length-append, Bool-cases,
  Option-cases,
}
use blackglass_server.Table.{count}
use blackglass_server.Limits.Map.{get, put}
use blackglass_server.Limits.Source.{
  SourceLimitEntry, Entries, signin_attempts_per_source, max_unauthenticated_ws_per_source,
  max_source_limit_entries, make_room, entry_of, or_new, pop_expired, admit_signin, pop_back,
  refund_successful_signin, admit_websocket, drop_connection,
}
use blackglass_server.Limits.Source.Bounds.{
  IsBounded, make_room-IsRoomy, roomy-IsBounded, put-IsBounded,
}

length-pop_expired : (now : ℕ) (xs : List ℕ) → length (pop_expired now xs) ≤ length xs
unfolding pop_expired
length-pop_expired now [] = omega arith
length-pop_expired now (x ∷ xs) = ground (arith, length-pop_expired now xs)

length-pop_back : (xs : List ℕ) → length (pop_back xs) ≤ length xs
unfolding pop_back
length-pop_back [] = omega arith
length-pop_back (x ∷ []) = omega arith
length-pop_back (x ∷ y ∷ xs) = omega (arith, length-pop_back (y ∷ xs))

module _ (held : List ℕ) (source now : ℕ) (es : Entries) (h : IsBounded held es) where
  abbrev roomy : Entries
  roomy = make_room source now es

  abbrev entry : SourceLimitEntry
  entry = or_new now (get source roomy)

  room_made : IsBounded held roomy
  room_made = roomy-IsBounded held es roomy (make_room-IsRoomy source now es h.is_map) h

  -- A write that leaves the source's websockets as they were.
  rewritten :
      (e : SourceLimitEntry)
      → (not (is_some (get source roomy)) && leb max_source_limit_entries (length roomy)) ≡ false
      → e.unauthenticated_websockets ≡ entry.unauthenticated_websockets
      → length e.signin_attempts ≤ signin_attempts_per_source
      → IsBounded held (put source e roomy)
  rewritten e room same attempts =
      put-IsBounded held held source e roomy room_made (ground (arith, room))
        (λ s. ground (
          arith,
          same,
          room_made.websockets s,
          room_made.websockets source,
          Option-cases (get source roomy),
        ))
        (ground (arith, same, room_made.open_few source, Option-cases (get source roomy))) attempts

  signin-IsBounded : IsBounded held (admit_signin source now es).1
  unfolding admit_signin entry_of
  signin-IsBounded =
      elim (Bool-cases
        (not (is_some (get source roomy)) && leb max_source_limit_entries (length roomy))) [
          | inl full ↦ rw full room_made
          | inr room ↦
              let recent = pop_expired now entry.signin_attempts in
              elim (Bool-cases (leb signin_attempts_per_source (length recent))) [
                | inl spent ↦
                    rw (room, spent)
                      (rewritten (record entry { signin_attempts = recent; last_seen = now }) room
                        refl
                        (ground (
                          arith,
                          length-pop_expired now entry.signin_attempts,
                          room_made.attempts_few source,
                          Option-cases (get source roomy),
                        )))
                | inr left ↦
                    rw (room, left)
                      (rewritten
                        (record entry { signin_attempts = recent ++ now ∷ []; last_seen = now })
                        room refl (ground (arith, length-append recent (now ∷ []), left)))
              ]
        ]

  -- Admitted, the source holds one more websocket; refused, no source holds more or less.
  abbrev held_after : Bool → List ℕ
  held_after admitted = if admitted then source ∷ held else held

  websocket-IsBounded :
      IsBounded (held_after (admit_websocket source now es).0) (admit_websocket source now es).1
  unfolding admit_websocket entry_of count
  websocket-IsBounded =
      elim (Bool-cases
        (not (is_some (get source roomy)) && leb max_source_limit_entries (length roomy))) [
          | inl full ↦ rw full room_made
          | inr room ↦
              elim (Bool-cases
                (leb max_unauthenticated_ws_per_source entry.unauthenticated_websockets)) [
                  | inl spent ↦
                      rw (room, spent)
                        (rewritten (record entry { last_seen = now }) room refl
                          (ground (
                            arith,
                            room_made.attempts_few source,
                            Option-cases (get source roomy),
                          )))
                  | inr left ↦
                      rw (room, left)
                        (put-IsBounded held (source ∷ held) source
                          (record entry {
                            unauthenticated_websockets = suc entry.unauthenticated_websockets;
                            last_seen = now;
                          })
                          roomy room_made (ground (arith, room))
                          (λ s. ground (
                            arith,
                            room_made.websockets s,
                            room_made.websockets source,
                            Option-cases (get source roomy),
                          ))
                          (ground (arith, left))
                          (ground (
                            arith,
                            room_made.attempts_few source,
                            Option-cases (get source roomy),
                          )))
                ]
        ]

  refund-IsBounded : IsBounded held (refund_successful_signin source now es)
  unfolding refund_successful_signin
  refund-IsBounded = elim (Option-cases (get source es)) [
    | inl absent ↦ rw absent h
    | inr (e, found) ↦ rw found (
        put-IsBounded held held source
          (record e { signin_attempts = pop_back e.signin_attempts; last_seen = now }) es h
          (ground (arith, found)) (λ s. ground (arith, found, h.websockets s, h.websockets source))
          (ground (arith, found, h.open_few source))
          (ground (arith, found, h.attempts_few source, length-pop_back e.signin_attempts)))
  ]

count-without :
    (s source : ℕ) (before after : List ℕ)
    → count (λ h. h == s) (before ++ source ∷ after)
      ≡ count (λ h. h == s) (before ++ after) + (if source == s then 1 else 0)
unfolding count
count-without s source [] after = ground arith
count-without s source (x ∷ before) after = ground (arith, count-without s source before after)

drop-IsBounded :
    (before after : List ℕ) (source now : ℕ) (es : Entries)
    → IsBounded (before ++ source ∷ after) es
    → IsBounded (before ++ after) (drop_connection source now es)
unfolding drop_connection
drop-IsBounded before after source now es h = elim (Option-cases (get source es)) [
  | inl absent ↦
      absurd (ground (arith, absent, h.websockets source, count-without source source before after))
  | inr (e, found) ↦ rw found (
      put-IsBounded (before ++ source ∷ after) (before ++ after) source
        (record e {
          unauthenticated_websockets = e.unauthenticated_websockets - 1;
          last_seen = now;
        })
        es h (ground (arith, found))
        (λ s. ground (
          arith,
          found,
          h.websockets s,
          h.websockets source,
          count-without s source before after,
          count-without source source before after,
        ))
        (ground (arith, found, h.open_few source)) (ground (arith, found, h.attempts_few source)))
]

-- The system of all connections: each step holds the mutex. A permit is held by its source's address.
pub data Step : List ℕ × Entries → List ℕ × Entries → Type 0 where
  signin :
      {held : List ℕ} {es : Entries} (source now : ℕ)
      → Step (held, es) (held, (admit_signin source now es).1)
  refund :
      {held : List ℕ} {es : Entries} (source now : ℕ)
      → Step (held, es) (held, refund_successful_signin source now es)
  websocket :
      {held : List ℕ} {es : Entries} (source now : ℕ)
      → Step
          (held, es)
          (
            (if (admit_websocket source now es).0 then source ∷ held else held),
            (admit_websocket source now es).1,
          )
  close :
      {es : Entries} (before after : List ℕ) (source now : ℕ) (held kept : List ℕ)
      → held ≡ before ++ source ∷ after
      → kept ≡ before ++ after
      → Step (held, es) (kept, drop_connection source now es)

pub data Reachable : List ℕ × Entries → Type 0 where
  start : (s : List ℕ × Entries) → s ≡ ([], []) → Reachable s
  step : {s t : List ℕ × Entries} → Reachable s → Step s t → Reachable t

Step-IsBounded : (s t : List ℕ × Entries) → Step s t → IsBounded s.0 s.1 → IsBounded t.0 t.1
Step-IsBounded s t (signin {held} {es} source now) h = signin-IsBounded held source now es h
Step-IsBounded s t (refund {held} {es} source now) h = refund-IsBounded held source now es h
Step-IsBounded s t (websocket {held} {es} source now) h = websocket-IsBounded held source now es h
Step-IsBounded s t (close {es} before after source now held kept e f) h =
    subst (λ hs. IsBounded hs (drop_connection source now es)) (sym f)
      (drop-IsBounded before after source now es (subst (λ hs. IsBounded hs es) e h))

-- In every state that a run leads to, whatever the order of sign-ins, refunds and websockets and
-- whichever entries are evicted, there are at most 4,096 entries with distinct sources, the counter
-- of each source is the number of unauthenticated websockets it has open, at most 4, and no source
-- has more than 6 attempts recorded.
pub sources-IsBounded : (s : List ℕ × Entries) → Reachable s → IsBounded s.0 s.1
unfolding get count
sources-IsBounded s (start _ e) =
    subst (λ t. IsBounded t.0 t.1) (sym e)
      record {
        is_map = tt;
        few = omega arith;
        websockets = λ s. refl;
        open_few = λ s. omega arith;
        attempts_few = λ s. omega arith;
      }
sources-IsBounded t (step {s} r h) = Step-IsBounded s t h (sources-IsBounded s r)
