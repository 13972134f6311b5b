-- ===== src/Socket/Replay/Pages.antt =====
-- Pages of rows in the order of their uids: what follows the last uid of a page is the rest.
use blackglass_server.Base.{
  ℕ, zero, suc, ◌≤◌, ◌<◌, ◌≡◌, refl, Bool, false, ◌&&◌, List, [], ◌∷◌, ◌++◌, map, take, drop, All,
  arith, ltb, ltb→ge, length,
}
use blackglass_server.Table.{select}
use blackglass_server.Table.Laws.{All-select}
use blackglass_server.Database.{RevisionRow}
use blackglass_server.Revisions.{revision_row}
use blackglass_server.Socket.Replay.{last_uid}

-- In the order of their uids, each of which is another's once.
abbrev pub IsAscending : List RevisionRow → Type 0
IsAscending [] = Unit
IsAscending (r ∷ rs) = All (λ (s : RevisionRow). r.uid < s.uid) rs × IsAscending rs

abbrev pub is_after : ℕ → RevisionRow → Bool
is_after cursor r = ltb cursor r.uid

pub IsAscending-select :
    (p : RevisionRow → Bool) (rs : List RevisionRow) → IsAscending rs → IsAscending (select p rs)
unfolding select
IsAscending-select p [] h = tt
IsAscending-select p (r ∷ rs) (h, hs) =
    ground
      (arith, IsAscending-select p rs hs, All-select (λ (s : RevisionRow). r.uid < s.uid) p rs h)

select_everything :
    (c : ℕ) (rs : List RevisionRow)
    → All (λ (s : RevisionRow). c < s.uid) rs
    → select (is_after c) rs ≡ rs
unfolding select
select_everything c [] h = refl
select_everything c (r ∷ rs) (h, hs) = ground (arith, select_everything c rs hs)

-- A page of at least one row, and the rows after its last.
select-last_uid :
    (n c : ℕ) (r : RevisionRow) (rs : List RevisionRow)
    → IsAscending (r ∷ rs)
    → (r.uid ≤ last_uid c (map revision_row (take (suc n) (r ∷ rs))))
      × (select (is_after (last_uid c (map revision_row (take (suc n) (r ∷ rs))))) (r ∷ rs)
          ≡ drop (suc n) (r ∷ rs))
unfolding select last_uid
select-last_uid zero c r rs (h, hs) = (omega arith, ground (arith, select_everything r.uid rs h))
select-last_uid (suc n) c r [] (h, hs) = (omega arith, ground arith)
select-last_uid (suc n) c r (s ∷ rs) ((below, h), hs) =
    let (le, rest) = select-last_uid n r.uid s rs hs in
    (omega (arith, le), ground (arith, le, rest))

-- Rows after a later cursor, out of those after an earlier one.
pub select_nested :
    (p : RevisionRow → Bool) (c d : ℕ) (rs : List RevisionRow)
    → c ≤ d
    → select (λ r. p r && is_after d r) rs
      ≡ select (is_after d) (select (λ r. p r && is_after c r) rs)
unfolding select
select_nested p c d [] le = refl
select_nested p c d (r ∷ rs) le = ground (arith, select_nested p c d rs le)

pub select_ext :
    (p q : RevisionRow → Bool) (rs : List RevisionRow)
    → ((r : RevisionRow) → p r ≡ q r)
    → select p rs ≡ select q rs
unfolding select
select_ext p q [] h = refl
select_ext p q (r ∷ rs) h = ground (arith, h r, select_ext p q rs h)

-- Rows that a query does not read do not show in its answer.
pub select-unread :
    (p : RevisionRow → Bool) (rs later : List RevisionRow)
    → All (λ r. p r ≡ false) later
    → select p (rs ++ later) ≡ select p rs
unfolding select
select-unread p [] [] h = refl
select-unread p [] (r ∷ later) (h, hs) = ground (arith, select-unread p [] later hs)
select-unread p (r ∷ rs) later h = ground (arith, select-unread p rs later h)

-- What follows the last uid of a full page.
pub page_rest :
    (n cursor : ℕ) (ys : List RevisionRow)
    → IsAscending ys
    → All (λ (s : RevisionRow). cursor < s.uid) ys
    → ltb (length (map revision_row (take (suc n) ys))) (suc n) ≡ false
    → (cursor ≤ last_uid cursor (map revision_row (take (suc n) ys)))
      × (select (is_after (last_uid cursor (map revision_row (take (suc n) ys)))) ys
          ≡ drop (suc n) ys)
page_rest n cursor [] h a long = absurd (omega (arith, ltb→ge _ _ long))
page_rest n cursor (r ∷ rs) h (a, later) long =
    let (le, rest) = select-last_uid n cursor r rs h in (omega (arith, le, a), rest)

pub each_is_after :
    (p : RevisionRow → Bool) (c : ℕ) (rs : List RevisionRow)
    → All (λ (s : RevisionRow). c < s.uid) (select (λ r. p r && is_after c r) rs)
unfolding select
each_is_after p c [] = tt
each_is_after p c (r ∷ rs) = ground (arith, each_is_after p c rs)
