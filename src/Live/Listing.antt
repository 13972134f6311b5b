-- ===== src/Live/Listing.antt =====
-- The list of live connections that an administrator sees.
use blackglass_server.Base.{
  ℕ, zero, suc, ◌↔◌, ◌≤◌, ◌≡◌, refl, ap, ◌⊎◌, inl, inr, List, [], ◌∷◌, map, take, All, arith,
  length, length-map, Bool-cases,
}
use blackglass_server.Table.{order_by, insert_by}
use blackglass_server.Table.Members.{In}
use blackglass_server.Table.Sorted.{order_by-In}
use blackglass_server.Table.Laws.{length-order_by}
use blackglass_server.Live.{LiveEntry, LiveConnection, snapshot, by_connection}

-- In the order of their beginning.
abbrev pub IsByAge : List LiveConnection → Type 0
IsByAge [] = Unit
IsByAge (c ∷ cs) = All (λ (d : LiveConnection). c.connected_at ≤ d.connected_at) cs × IsByAge cs

take_all : (n : ℕ) (cs : List LiveConnection) → length cs ≤ n → take n cs ≡ cs
take_all zero [] h = refl
take_all zero (c ∷ cs) h = absurd (omega arith)
take_all (suc n) [] h = refl
take_all (suc n) (c ∷ cs) h = ap (λ l. c ∷ l) (take_all n cs (omega arith))

module _ (c : LiveConnection) where
  insert_younger :
      (d : LiveConnection) (cs : List LiveConnection)
      → c.connected_at ≤ d.connected_at
      → All (λ (x : LiveConnection). c.connected_at ≤ x.connected_at) cs
      → All (λ (x : LiveConnection). c.connected_at ≤ x.connected_at) (insert_by by_connection d cs)
  unfolding insert_by
  insert_younger d [] le h = (le, tt)
  insert_younger d (x ∷ cs) le (h, hs) = ground (arith, insert_younger d cs le hs)

  younger_still :
      (d : LiveConnection) (cs : List LiveConnection)
      → c.connected_at ≤ d.connected_at
      → All (λ (x : LiveConnection). d.connected_at ≤ x.connected_at) cs
      → All (λ (x : LiveConnection). c.connected_at ≤ x.connected_at) cs
  younger_still d [] le h = tt
  younger_still d (x ∷ cs) le (h, hs) = (omega arith, younger_still d cs le hs)

insert-IsByAge :
    (c : LiveConnection) (cs : List LiveConnection)
    → IsByAge cs
    → IsByAge (insert_by by_connection c cs)
unfolding insert_by
insert-IsByAge c [] h = (tt, tt)
insert-IsByAge c (d ∷ cs) (h, hs) = elim (Bool-cases (by_connection c d)) [
  | inl below ↦
      let le : c.connected_at ≤ d.connected_at = ground arith in
      rw below ((le, younger_still c d cs le h), (h, hs))
  | inr above ↦
      let le : d.connected_at ≤ c.connected_at = ground arith in
      rw above (insert_younger d c cs le h, insert-IsByAge c cs hs)
]

order-IsByAge : (cs : List LiveConnection) → IsByAge (order_by by_connection cs)
unfolding order_by
order-IsByAge [] = tt
order-IsByAge (c ∷ cs) = insert-IsByAge c (order_by by_connection cs) (order-IsByAge cs)

In-insert_by :
    (c d : LiveConnection) (cs : List LiveConnection)
    → (c ≡ d) ⊎ In c cs
    → In c (insert_by by_connection d cs)
unfolding insert_by
In-insert_by c d [] i = i
In-insert_by c d (x ∷ cs) (inl e) = ground (arith, In-insert_by c d cs (inl e))
In-insert_by c d (x ∷ cs) (inr (inl e)) = ground arith
In-insert_by c d (x ∷ cs) (inr (inr i)) = ground (arith, In-insert_by c d cs (inr i))

In-order_by :
    (c : LiveConnection) (cs : List LiveConnection) → In c cs → In c (order_by by_connection cs)
unfolding order_by
In-order_by c [] i = i
In-order_by c (x ∷ cs) (inl e) = In-insert_by c x (order_by by_connection cs) (inl e)
In-order_by c (x ∷ cs) (inr i) =
    In-insert_by c x (order_by by_connection cs) (inr (In-order_by c cs i))

-- A registry within its capacity is listed whole: the list is in the order of the connections'
-- beginning, as long as the registry, and has the connection of an entry and nothing else.
pub snapshot_lists :
    (max : ℕ) (es : List LiveEntry)
    → length es ≤ max
    → IsByAge (snapshot max es)
      × (length (snapshot max es) ≡ length es)
      × ((c : LiveConnection)
          → In c (snapshot max es) ↔ In c (map (λ (e : LiveEntry). e.connection) es))
unfolding snapshot
snapshot_lists max es room =
    let cs = map (λ (e : LiveEntry). e.connection) es in
    let counted = length-order_by by_connection cs in
    let mapped = length-map (λ (e : LiveEntry). e.connection) es in
    let whole = take_all max (order_by by_connection cs) (omega (arith, counted, mapped, room)) in
    rw whole (
      order-IsByAge cs,
      omega (arith, counted, mapped),
      λ c. (order_by-In by_connection c cs, In-order_by c cs),
    )
