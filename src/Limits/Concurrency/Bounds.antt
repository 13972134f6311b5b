-- ===== src/Limits/Concurrency/Bounds.antt =====
-- The counters of `UserConcurrency` are the numbers of permits held, whatever the order in which
-- connections and uploads begin and end.
use blackglass_server.Base.{
  ℕ, suc, ◌+◌, ◌-◌, ◌≤◌, ◌≡◌, refl, sym, subst, ap, Bool, true, false, ◌&&◌, none, some, List, [],
  ◌∷◌, ◌++◌, ◌==◌, nat_eq, if◌then◌else◌, arith, Option-cases, inl, inr,
}
use blackglass_server.Table.{count}
use blackglass_server.Limits.Map.{get, or_default, get-put, get-remove}
use blackglass_server.Limits.Concurrency.{
  UserConcurrencyEntry, UserConcurrencyKind, connection, upload, UserConcurrencyPermit, no_permits,
  count_of, set_count, try_acquire, drop_permit,
}

-- What the entries say that a user has of a kind.
unfoldable pub open_of : ℕ → UserConcurrencyKind → List (ℕ × UserConcurrencyEntry) → ℕ
unfolding count_of
open_of user_id kind entries = count_of kind (or_default no_permits (get user_id entries))

abbrev pub same_kind : UserConcurrencyKind → UserConcurrencyKind → Bool
same_kind connection connection = true
same_kind upload upload = true
same_kind _ _ = false

abbrev pub is_for : ℕ → UserConcurrencyKind → UserConcurrencyPermit → Bool
is_for user_id kind permit = (permit.user_id == user_id) && same_kind permit.kind kind

pub data Step (limit : UserConcurrencyKind → ℕ)
    : List UserConcurrencyPermit × List (ℕ × UserConcurrencyEntry)
      → List UserConcurrencyPermit × List (ℕ × UserConcurrencyEntry)
      → Type 0 where
  acquire :
      {held : List UserConcurrencyPermit} {entries entries' : List (ℕ × UserConcurrencyEntry)}
      (user_id : ℕ) (kind : UserConcurrencyKind) (permit : UserConcurrencyPermit)
      → try_acquire user_id kind (limit kind) entries ≡ (some permit, entries')
      → Step limit (held, entries) (permit ∷ held, entries')
  refuse :
      {held : List UserConcurrencyPermit} {entries entries' : List (ℕ × UserConcurrencyEntry)}
      (user_id : ℕ) (kind : UserConcurrencyKind)
      → try_acquire user_id kind (limit kind) entries ≡ (none, entries')
      → Step limit (held, entries) (held, entries')
  drop_held :
      {entries : List (ℕ × UserConcurrencyEntry)} (before after : List UserConcurrencyPermit)
      (permit : UserConcurrencyPermit) (held kept : List UserConcurrencyPermit)
      → held ≡ before ++ permit ∷ after
      → kept ≡ before ++ after
      → Step limit (held, entries) (kept, drop_permit permit entries)

pub data Reachable (limit : UserConcurrencyKind → ℕ)
    : List UserConcurrencyPermit × List (ℕ × UserConcurrencyEntry) → Type 0 where
  start :
      (s : List UserConcurrencyPermit × List (ℕ × UserConcurrencyEntry))
      → s ≡ ([], [])
      → Reachable limit s
  step :
      {s t : List UserConcurrencyPermit × List (ℕ × UserConcurrencyEntry)}
      → Reachable limit s
      → Step limit s t
      → Reachable limit t

same_kind_of : (a b : UserConcurrencyKind) → same_kind a b ≡ true → a ≡ b
same_kind_of connection connection e = refl
same_kind_of upload upload e = refl
same_kind_of connection upload e = cc
same_kind_of upload connection e = cc

pub open_of-acquire :
    (user_id : ℕ) (kind : UserConcurrencyKind) (limit : ℕ)
    (entries entries' : List (ℕ × UserConcurrencyEntry)) (permit : UserConcurrencyPermit)
    → try_acquire user_id kind limit entries ≡ (some permit, entries')
    → (user : ℕ) (k : UserConcurrencyKind)
    → open_of user k entries' ≡ open_of user k entries + (if is_for user k permit then 1 else 0)
unfolding try_acquire open_of count_of set_count
open_of-acquire user_id kind limit entries entries' permit e user k =
    let entry = or_default no_permits (get user_id entries) in
    ground (arith, get-put user_id user (set_count kind (suc (count_of kind entry)) entry) entries)

open_of-refuse :
    (user_id : ℕ) (kind : UserConcurrencyKind) (limit : ℕ)
    (entries entries' : List (ℕ × UserConcurrencyEntry))
    → try_acquire user_id kind limit entries ≡ (none, entries')
    → (user : ℕ) (k : UserConcurrencyKind) → open_of user k entries' ≡ open_of user k entries
unfolding try_acquire open_of count_of set_count
open_of-refuse user_id kind limit entries entries' e user k =
    let entry = or_default no_permits (get user_id entries) in
    ground (arith, get-put user_id user entry entries)

pub open_of-drop :
    (permit : UserConcurrencyPermit) (entries : List (ℕ × UserConcurrencyEntry)) (user : ℕ)
    (k : UserConcurrencyKind)
    → open_of user k (drop_permit permit entries)
      ≡ open_of user k entries - (if is_for user k permit then 1 else 0)
unfolding drop_permit open_of count_of set_count
open_of-drop permit entries user k = elim (Option-cases (get permit.user_id entries)) [
  | inl e ↦ ground (arith, e)
  | inr (entry, e) ↦
      let left = set_count permit.kind (count_of permit.kind entry - 1) entry in
      ground
        (arith, e, get-put permit.user_id user left entries, get-remove permit.user_id user entries)
]

count-without :
    (user_id : ℕ) (kind : UserConcurrencyKind) (before after : List UserConcurrencyPermit)
    (permit : UserConcurrencyPermit)
    → count (is_for user_id kind) (before ++ permit ∷ after)
      ≡ count (is_for user_id kind) (before ++ after)
        + (if is_for user_id kind permit then 1 else 0)
unfolding count
count-without user_id kind [] after permit = ground arith
count-without user_id kind (x ∷ before) after permit =
    ground (arith, count-without user_id kind before after permit)

-- Acquiring succeeds below the limit only.
pub acquire_within :
    (user_id : ℕ) (kind : UserConcurrencyKind) (limit : ℕ)
    (entries entries' : List (ℕ × UserConcurrencyEntry)) (permit : UserConcurrencyPermit)
    → try_acquire user_id kind limit entries ≡ (some permit, entries')
    → (suc (open_of user_id kind entries) ≤ limit)
      × (permit.user_id ≡ user_id)
      × (permit.kind ≡ kind)
unfolding try_acquire open_of
acquire_within user_id kind limit entries entries' permit e = ground arith

-- The invariant: the counters count the permits, and no user holds more than the limit of a kind.
pub IsBounded :
    (UserConcurrencyKind → ℕ)
    → List UserConcurrencyPermit × List (ℕ × UserConcurrencyEntry)
    → Type 0
IsBounded limit s =
    (user_id : ℕ) (kind : UserConcurrencyKind)
    → (open_of user_id kind s.1 ≡ count (is_for user_id kind) s.0)
      × (count (is_for user_id kind) s.0 ≤ limit kind)

Step-IsBounded :
    (limit : UserConcurrencyKind → ℕ)
    (s t : List UserConcurrencyPermit × List (ℕ × UserConcurrencyEntry))
    → Step limit s t
    → IsBounded limit s
    → IsBounded limit t
unfolding IsBounded count
Step-IsBounded limit s t (acquire {held} {entries} {entries'} user_id kind permit e) h user k =
    ground (
      arith,
      open_of-acquire user_id kind (limit kind) entries entries' permit e user k,
      acquire_within user_id kind (limit kind) entries entries' permit e,
      h user k,
      h user_id kind,
      same_kind_of permit.kind k,
    )
Step-IsBounded limit s t (refuse {held} {entries} {entries'} user_id kind e) h user k =
    ground (arith, open_of-refuse user_id kind (limit kind) entries entries' e user k, h user k)
Step-IsBounded limit s t (drop_held {entries} before after permit held kept e f) h user k = ground (
  arith,
  ap (count (is_for user k)) e,
  ap (count (is_for user k)) f,
  count-without user k before after permit,
  open_of-drop permit entries user k,
  h user k,
)

-- In every state that a run of the server leads to, whatever the order in which connections and
-- uploads begin, are refused and end, the counter of each user and kind is the number of permits
-- that the user holds of that kind, and that number is at most the limit of the kind.
pub Reachable-IsBounded :
    (limit : UserConcurrencyKind → ℕ)
    (s : List UserConcurrencyPermit × List (ℕ × UserConcurrencyEntry))
    → Reachable limit s
    → IsBounded limit s
unfolding IsBounded open_of count get count_of
Reachable-IsBounded limit s (start _ e) = subst (IsBounded limit) (sym e) λ user k. ground arith
Reachable-IsBounded limit t (step {s} r h) =
    Step-IsBounded limit s t h (Reachable-IsBounded limit s r)
