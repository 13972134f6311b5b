-- ===== src/Limits/Source/Bounds.antt =====
-- The bounds of `SourceLimits`: no source has more than four unauthenticated websockets or six recent
-- attempts, whatever is evicted, and there are at most 4,096 entries.
use blackglass_server.Base.{
  ℕ, ◌+◌, ◌≤◌, ◌<◌, ◌≡◌, ◌⊎◌, inl, inr, refl, ap, subst, Bool, true, false, not, ◌&&◌, Option, none,
  some, List, [], ◌∷◌, All, arith, leb, ◌==◌, nat_eq, is_some, if◌then◌else◌, length, Bool-cases,
  Option-cases,
}
use blackglass_server.Table.{select, count}
use blackglass_server.Limits.Map.{get, put, remove, get-put, get-remove}
use blackglass_server.Limits.Source.{
  SourceLimitEntry, Entries, signin_attempts_per_source, max_unauthenticated_ws_per_source,
  max_source_limit_entries, is_kept, oldest_idle, evict, make_room,
}

-- No entry of the key.
abbrev IsNew : ℕ → Entries → Type 0
IsNew k = All (λ (e : ℕ × SourceLimitEntry). (e.0 == k) ≡ false)

abbrev pub IsMap : Entries → Type 0
IsMap [] = Unit
IsMap (e ∷ es) = IsNew e.0 es × IsMap es

get_new : (k : ℕ) (es : Entries) → IsNew k es → get k es ≡ none
unfolding get
get_new k [] h = refl
get_new k (e ∷ es) (h, hs) = ground (arith, get_new k es hs)

IsNew-select :
    (p : ℕ × SourceLimitEntry → Bool) (k : ℕ) (es : Entries) → IsNew k es → IsNew k (select p es)
unfolding select
IsNew-select p k [] h = tt
IsNew-select p k (e ∷ es) (h, hs) = ground (arith, IsNew-select p k es hs)

IsMap-select : (p : ℕ × SourceLimitEntry → Bool) (es : Entries) → IsMap es → IsMap (select p es)
unfolding select
IsMap-select p [] h = tt
IsMap-select p (e ∷ es) (h, hs) = ground (arith, IsMap-select p es hs, IsNew-select p e.0 es h)

IsNew-remove : (j k : ℕ) (es : Entries) → IsNew k es → IsNew k (remove j es)
unfolding remove
IsNew-remove j k [] h = tt
IsNew-remove j k (e ∷ es) (h, hs) = ground (arith, IsNew-remove j k es hs)

IsMap-remove : (j : ℕ) (es : Entries) → IsMap es → IsMap (remove j es)
unfolding remove
IsMap-remove j [] h = tt
IsMap-remove j (e ∷ es) (h, hs) = ground (arith, IsMap-remove j es hs, IsNew-remove j e.0 es h)

IsNew-put :
    (j k : ℕ) (v : SourceLimitEntry) (es : Entries)
    → (j == k) ≡ false
    → IsNew k es
    → IsNew k (put j v es)
unfolding put
IsNew-put j k v [] n h = (n, tt)
IsNew-put j k v (e ∷ es) n (h, hs) = ground (arith, IsNew-put j k v es n hs)

IsMap-put : (j : ℕ) (v : SourceLimitEntry) (es : Entries) → IsMap es → IsMap (put j v es)
unfolding put
IsMap-put j v [] h = (tt, tt)
IsMap-put j v (e ∷ es) (h, hs) = elim (Bool-cases (e.0 == j)) [
  | inl same ↦ rw same (subst (λ k. IsNew k es) (ground arith) h, hs)
  | inr differs ↦ rw differs (IsNew-put j e.0 v es (ground arith) h, IsMap-put j v es hs)
]

-- What a filter leaves of the entry of a key.
abbrev kept_by :
    (ℕ × SourceLimitEntry → Bool) → ℕ → Option SourceLimitEntry → Option SourceLimitEntry
kept_by p k none = none
kept_by p k (some e) = if p (k, e) then some e else none

get-select :
    (p : ℕ × SourceLimitEntry → Bool) (k : ℕ) (es : Entries)
    → IsMap es
    → get k (select p es) ≡ kept_by p k (get k es)
unfolding get select
get-select p k [] h = refl
get-select p k ((j, v) ∷ es) (h, hs) = elim (Bool-cases (j == k)) [
  | inl same ↦
      let e : j ≡ k = ground arith in
      ground (
        arith,
        get-select p k es hs,
        get_new k es (subst (λ i. IsNew i es) e h),
        ap (λ i. p (i, v)) e,
      )
  | inr differs ↦ ground (arith, get-select p k es hs)
]

length-select : (p : ℕ × SourceLimitEntry → Bool) (es : Entries) → length (select p es) ≤ length es
unfolding select
length-select p [] = omega arith
length-select p (e ∷ es) = ground (arith, length-select p es)

length-put :
    (k : ℕ) (v : SourceLimitEntry) (es : Entries)
    → length (put k v es) ≤ length es + (if is_some (get k es) then 0 else 1)
unfolding get put
length-put k v [] = omega arith
length-put k v ((j, w) ∷ es) = ground (arith, length-put k v es)

length-remove :
    (k : ℕ) (es : Entries)
    → length (remove k es) + (if is_some (get k es) then 1 else 0) ≤ length es
unfolding get remove
length-remove k [] = omega arith
length-remove k ((j, w) ∷ es) = ground (arith, length-remove k es)

abbrev pub ws_of : Option SourceLimitEntry → ℕ
ws_of none = 0
ws_of (some e) = e.unauthenticated_websockets

abbrev pub attempts_of : Option SourceLimitEntry → ℕ
attempts_of none = 0
attempts_of (some e) = length e.signin_attempts

oldest_idle-get :
    (es : Entries) (o : ℕ) (e : SourceLimitEntry)
    → IsMap es
    → oldest_idle es ≡ some (o, e)
    → (get o es ≡ some e) × (e.unauthenticated_websockets ≡ 0)
unfolding oldest_idle get
oldest_idle-get [] o e h found = cc
oldest_idle-get ((j, v) ∷ es) o e (h, hs) found = elim (Option-cases (oldest_idle es)) [
  | inl last ↦ ground (arith, last)
  | inr ((b, w), later) ↦
      ground (arith, later, oldest_idle-get es b w hs later, get_new j es h, ap (λ k. get k es))
]

-- What making room keeps: the websockets that every source has open, and no entry gains anything.
pub record IsRoomy (es es' : Entries) : Type 0 where
  pub is_map : IsMap es'
  pub shorter : length es' ≤ length es
  pub websockets : (s : ℕ) → ws_of (get s es') ≡ ws_of (get s es)
  pub attempts : (s : ℕ) → attempts_of (get s es') ≤ attempts_of (get s es)

evict-IsRoomy : (es : Entries) → IsMap es → IsRoomy es (evict (oldest_idle es) es)
evict-IsRoomy es h = elim (Option-cases (oldest_idle es)) [
  | inl none_idle ↦ rw none_idle record {
    is_map = h;
    shorter = omega arith;
    websockets = λ s. refl;
    attempts = λ s. omega arith;
  }
  | inr ((o, e), found) ↦
      let (here, idle) = oldest_idle-get es o e h found in
      rw found record {
        is_map = IsMap-remove o es h;
        shorter = omega (arith, length-remove o es);
        websockets = λ s. ground (arith, get-remove o s es, here, ap (λ k. get k es));
        attempts = λ s. ground (arith, get-remove o s es, Option-cases (get s es));
      }
]

retain-IsRoomy : (now : ℕ) (es : Entries) → IsMap es → IsRoomy es (select (is_kept now) es)
retain-IsRoomy now es h = record {
  is_map = IsMap-select (is_kept now) es h;
  shorter = length-select (is_kept now) es;
  websockets = λ s. ground (arith, get-select (is_kept now) s es h, Option-cases (get s es));
  attempts = λ s. ground (arith, get-select (is_kept now) s es h, Option-cases (get s es));
}

IsRoomy-trans : (es es' es'' : Entries) → IsRoomy es es' → IsRoomy es' es'' → IsRoomy es es''
IsRoomy-trans es es' es'' a b = record {
  is_map = b.is_map;
  shorter = omega (arith, a.shorter, b.shorter);
  websockets = λ s. omega (arith, a.websockets s, b.websockets s);
  attempts = λ s. omega (arith, a.attempts s, b.attempts s);
}

pub make_room-IsRoomy :
    (source now : ℕ) (es : Entries) → IsMap es → IsRoomy es (make_room source now es)
unfolding make_room
make_room-IsRoomy source now es h =
    let kept = select (is_kept now) es in
    let retained = retain-IsRoomy now es h in
    elim (Bool-cases
      (not (is_some (get source kept)) && leb max_source_limit_entries (length kept))) [
        | inl full ↦ rw full (
            IsRoomy-trans es kept (evict (oldest_idle kept) kept) retained
              (evict-IsRoomy kept retained.is_map))
        | inr roomy ↦ rw roomy retained
      ]

-- The invariant: `held` names the source of each unauthenticated websocket that is open.
pub record IsBounded (held : List ℕ) (es : Entries) : Type 0 where
  pub is_map : IsMap es
  pub few : length es ≤ max_source_limit_entries
  pub websockets : (s : ℕ) → ws_of (get s es) ≡ count (λ h. h == s) held
  pub open_few : (s : ℕ) → ws_of (get s es) ≤ max_unauthenticated_ws_per_source
  pub attempts_few : (s : ℕ) → attempts_of (get s es) ≤ signin_attempts_per_source

pub roomy-IsBounded :
    (held : List ℕ) (es es' : Entries) → IsRoomy es es' → IsBounded held es → IsBounded held es'
roomy-IsBounded held es es' r h = record {
  is_map = r.is_map;
  few = omega (arith, r.shorter, h.few);
  websockets = λ s. omega (arith, r.websockets s, h.websockets s);
  open_few = λ s. omega (arith, r.websockets s, h.open_few s);
  attempts_few = λ s. omega (arith, r.attempts s, h.attempts_few s);
}

-- A write of an entry with other websockets for its source.
pub put-IsBounded :
    (held held' : List ℕ) (source : ℕ) (e : SourceLimitEntry) (es : Entries)
    → IsBounded held es
    → (is_some (get source es) ≡ true) ⊎ (length es < max_source_limit_entries)
    → ((s : ℕ)
        → count (λ h. h == s) held'
          ≡ (if source == s then e.unauthenticated_websockets else count (λ h. h == s) held))
    → e.unauthenticated_websockets ≤ max_unauthenticated_ws_per_source
    → length e.signin_attempts ≤ signin_attempts_per_source
    → IsBounded held' (put source e es)
put-IsBounded held held' source e es h room counts ws attempts = record {
  is_map = IsMap-put source e es h.is_map;
  few = ground (arith, length-put source e es, h.few, room);
  websockets = λ s. ground (arith, get-put source s e es, h.websockets s, counts s);
  open_few = λ s. ground (arith, get-put source s e es, h.open_few s);
  attempts_few = λ s. ground (arith, get-put source s e es, h.attempts_few s);
}
