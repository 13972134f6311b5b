-- ===== src/Socket/Acknowledge/Order.antt =====
-- A client hears of its own commit last: the earlier changes of the vault come first, all of them.
use blackglass_server.Base.{
  ℕ, suc, ◌≡◌, refl, ap, ◌∙◌, ◌<◌, List, [], ◌∷◌, ◌++◌, All, Bool, true, false, ltb, ◌==◌, nat_eq,
  text_eq, if◌then◌else◌, arith, ==_refl, Bool-cases, inl, inr, ◌⊎◌, Text,
}
use blackglass_server.Socket.Replay.{Gate, go, shutdown, revoked}
use blackglass_server.Socket.Session.{Event}
use blackglass_server.Socket.Acknowledge.{
  Received, event, lagged, channel_closed, Acknowledged, acknowledged, own_event, send_event,
  receive, acknowledge_commit,
}

-- The events of the vault in what was received.
abbrev pub of_vault : Text → List Received → List Event
of_vault vault [] = []
of_vault vault (event e ∷ rs) =
    if e.vault == vault then e ∷ of_vault vault rs else of_vault vault rs
of_vault vault (lagged ∷ rs) = of_vault vault rs
of_vault vault (channel_closed ∷ rs) = of_vault vault rs

-- Events sent in order up to the commit's, all before it and none after it.
pub record IsInOrder (sent all : List Event) (committed : Event) : Type 0 where
  pub before : List Event
  pub own : Event
  pub rest : List Event
  pub ends : sent ≡ before ++ own ∷ []
  pub first : all ≡ before ++ own ∷ rest
  pub same : own.uid ≡ committed.uid
  pub earlier : All (λ (e : Event). e.uid < committed.uid) before
  pub none_deleted : All (λ (e : Event). e.invalidated ≡ false) before

-- A sent event in front.
after_earlier :
    (e : Event) (sent all : List Event) (committed : Event)
    → e.uid < committed.uid
    → e.invalidated ≡ false
    → IsInOrder sent all committed
    → IsInOrder (e ∷ sent) (e ∷ all) committed
after_earlier e sent all committed lt kept o = record {
  before = e ∷ o.before;
  own = o.own;
  rest = o.rest;
  ends = ap (λ l. e ∷ l) o.ends;
  first = ap (λ l. e ∷ l) o.first;
  same = o.same;
  earlier = (lt, o.earlier);
  none_deleted = (kept, o.none_deleted);
}

own-IsInOrder :
    (after : Gate) (e committed : Event) (all : List Event)
    → e.uid ≡ committed.uid
    → (own_event after e).1 ≡ acknowledged
    → IsInOrder (own_event after e).0 (e ∷ all) committed
unfolding own_event
own-IsInOrder revoked e committed all same q = absurd cc
own-IsInOrder go e committed all same q = record {
  before = [];
  own = e;
  rest = all;
  ends = refl;
  first = refl;
  same = same;
  earlier = tt;
  none_deleted = tt;
}
own-IsInOrder shutdown e committed all same q = record {
  before = [];
  own = e;
  rest = all;
  ends = refl;
  first = refl;
  same = same;
  earlier = tt;
  none_deleted = tt;
}

sent-IsInOrder :
    (g after : Gate) (e committed : Event) (rest : List Event × Acknowledged) (all : List Event)
    → e.invalidated ≡ false
    → (rest.1 ≡ acknowledged → IsInOrder rest.0 all committed)
    → (send_event g after e committed rest).1 ≡ acknowledged
    → IsInOrder (send_event g after e committed rest).0 (e ∷ all) committed
unfolding send_event
sent-IsInOrder shutdown after e committed rest all kept h q = absurd cc
sent-IsInOrder revoked after e committed rest all kept h q = absurd cc
sent-IsInOrder go after e committed (sent, end) all kept h q =
    elim (Bool-cases (e.uid == committed.uid)) [
      | inl own ↦ rw own (own-IsInOrder after e committed all (ground arith) (rw own at q))
      | inr other ↦ elim (Bool-cases (ltb committed.uid e.uid)) [
        | inl later ↦ absurd (ground (arith, other, later, q))
        | inr earlier ↦
            rw (other, earlier)
              (after_earlier e sent all committed (ground arith) kept
                (h (rw (other, earlier) at q)))
      ]
    ]

received-IsInOrder :
    (gate : ℕ → Gate) (n : ℕ) (rs : List Received) (committed : Event)
    → (receive gate n rs committed).1 ≡ acknowledged
    → IsInOrder (receive gate n rs committed).0 (of_vault committed.vault rs) committed
unfolding receive
received-IsInOrder gate n [] committed q = absurd cc
received-IsInOrder gate n (lagged ∷ rs) committed q = absurd cc
received-IsInOrder gate n (channel_closed ∷ rs) committed q = absurd cc
received-IsInOrder gate n (event e ∷ rs) committed q =
    elim (Bool-cases (e.vault == committed.vault)) [
      | inr other ↦ rw other (received-IsInOrder gate (suc n) rs committed (rw other at q))
      | inl same ↦ elim (Bool-cases e.invalidated) [
        | inl gone ↦ absurd (ground (arith, same, gone, q))
        | inr kept ↦
            simp (same, kept)
              (sent-IsInOrder (gate n) (gate (suc n)) e committed
                (receive gate (suc n) rs committed) (of_vault committed.vault rs) kept
                (received-IsInOrder gate (suc n) rs committed) (simp (same, kept) at q))
      ]
    ]

-- Where a commit is acknowledged to its client by `ok`, the client was sent the vault's events of the
-- stream in their order, from the first one to the commit's own and no further; all those before
-- it are earlier commits, and none of them is an invalidation. This holds whatever the checks find.
pub acknowledge_commit-IsInOrder :
    (gate : ℕ → Gate) (stopping : Bool) (received : List Received) (committed : Event)
    → (acknowledge_commit stopping gate received committed).1 ≡ acknowledged
    → IsInOrder
        (acknowledge_commit stopping gate received committed).0
        (of_vault committed.vault received)
        committed
unfolding acknowledge_commit
acknowledge_commit-IsInOrder gate true received committed q = absurd cc
acknowledge_commit-IsInOrder gate false received committed q =
    received-IsInOrder gate 0 received committed q

-- What the stream must carry: the commit's event, behind earlier ones of the vault, none an
-- invalidation, and before any failure of the stream.
abbrev pub IsPublished : List Received → Event → Type 0
IsPublished [] committed = ⊥
IsPublished (lagged ∷ rs) committed = ⊥
IsPublished (channel_closed ∷ rs) committed = ⊥
IsPublished (event e ∷ rs) committed =
    ((e.vault ≡ committed.vault) × (e.invalidated ≡ false) × (e.uid ≡ committed.uid))
    ⊎ (((e.vault == committed.vault) ≡ false) × IsPublished rs committed)
    ⊎ ((e.invalidated ≡ false) × (e.uid < committed.uid) × IsPublished rs committed)

received_all :
    (gate : ℕ → Gate) (n : ℕ) (rs : List Received) (committed : Event)
    → ((m : ℕ) → gate m ≡ go)
    → IsPublished rs committed
    → (receive gate n rs committed).1 ≡ acknowledged
unfolding receive send_event own_event
received_all gate n [] committed running p = absurd p
received_all gate n (lagged ∷ rs) committed running p = absurd p
received_all gate n (channel_closed ∷ rs) committed running p = absurd p
received_all gate n (event e ∷ rs) committed running (inl (vault, kept, own)) =
    let same : (e.vault == committed.vault) ≡ true =
      ap (λ v. v == committed.vault) vault ∙ ==_refl committed.vault in
    let its : (e.uid == committed.uid) ≡ true = ground arith in
    simp (same, kept, running n, its, running (suc n)) refl
received_all gate n (event e ∷ rs) committed running (inr (inl (other, p))) =
    rw other (received_all gate (suc n) rs committed running p)
received_all gate n (event e ∷ rs) committed running (inr (inr (kept, earlier, p))) =
    elim (Bool-cases (e.vault == committed.vault)) [
      | inr other ↦ rw other (received_all gate (suc n) rs committed running p)
      | inl same ↦
          let ne : (e.uid == committed.uid) ≡ false = ground arith in
          let le : ltb committed.uid e.uid ≡ false = ground arith in
          rw (same, kept, running n, ne, le) (received_all gate (suc n) rs committed running p)
    ]

-- While the server runs and the session stays valid, a commit whose event the stream brings behind
-- earlier events only is acknowledged by `ok`.
pub acknowledge_commit_answers :
    (gate : ℕ → Gate) (received : List Received) (committed : Event)
    → ((m : ℕ) → gate m ≡ go)
    → IsPublished received committed
    → (acknowledge_commit false gate received committed).1 ≡ acknowledged
unfolding acknowledge_commit
acknowledge_commit_answers gate received committed running p =
    received_all gate 0 received committed running p
