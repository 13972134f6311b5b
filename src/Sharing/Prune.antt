-- ===== src/Sharing/Prune.antt =====
-- `prune_revoked` removes revoked memberships of the vault only: no query for active ones sees it.
use blackglass_server.Base.{
  ℕ, suc, ◌-◌, ◌≡◌, Bool, true, false, List, All, arith, Text, ◌==◌, nat_eq, text_eq, is_some,
}
use blackglass_server.Table.{select, count, exists, find, order_by}
use blackglass_server.Table.Keys.{IsKeyed, IsKeyed-delete}
use blackglass_server.Table.Laws.{All-delete}
use blackglass_server.Table.Members.{In, exists_witness, select-In}
use blackglass_server.Table.Sorted.{
  take-In, order_by-In, All-In, find-delete_unread, count-delete_unread, keyed_same,
}
use blackglass_server.Database.{Membership, is_active_member, max_revoked_memberships_per_vault}
use blackglass_server.Sharing.{
  is_active_in, is_revoked_in, by_revocation, oldest_revoked, prune_revoked,
}

abbrev pub id_of : Membership → ℕ
id_of m = m.id

abbrev is_pruned : Text → List Membership → Membership → Bool
is_pruned vault ms m = exists (λ (o : Membership). o.id == m.id) (oldest_revoked vault ms)

pruned-is_some :
    (vault : Text) (ms : List Membership)
    → IsKeyed id_of ms
    → (m : Membership) → In m ms
    → is_pruned vault ms m ≡ true
    → is_some m.revoked_at ≡ true
unfolding oldest_revoked
pruned-is_some vault ms keyed m i h =
    let n = suc (count (is_revoked_in vault) ms) - max_revoked_memberships_per_vault in
    let rows = select (is_revoked_in vault) ms in
    let (o, there, same) =
      exists_witness (λ (o : Membership). o.id == m.id) (oldest_revoked vault ms) h in
    let (j, revoked) =
      select-In (is_revoked_in vault) o ms
        (order_by-In by_revocation o rows (take-In n o (order_by by_revocation rows) there)) in
    ground (arith, keyed_same id_of o m ms keyed j i same)

unread :
    (vault : Text) (ms : List Membership) (q : Membership → Bool)
    → IsKeyed id_of ms
    → ((m : Membership) → is_some m.revoked_at ≡ true → q m ≡ false)
    → All (λ m. is_pruned vault ms m ≡ true → q m ≡ false) ms
unread vault ms q keyed h =
    All-In (λ m. is_pruned vault ms m ≡ true → q m ≡ false) ms
      λ m i pruned. h m (pruned-is_some vault ms keyed m i pruned)

pub find-prune_revoked :
    (vault other : Text) (user_id : ℕ) (ms : List Membership)
    → IsKeyed id_of ms
    → find (is_active_member other user_id) (prune_revoked vault ms)
      ≡ find (is_active_member other user_id) ms
unfolding prune_revoked
find-prune_revoked vault other user_id ms keyed =
    find-delete_unread (is_pruned vault ms) (is_active_member other user_id) ms
      (unread vault ms (is_active_member other user_id) keyed λ m h. ground arith)

pub count-prune_revoked :
    (vault other : Text) (ms : List Membership)
    → IsKeyed id_of ms
    → count (is_active_in other) (prune_revoked vault ms) ≡ count (is_active_in other) ms
unfolding prune_revoked
count-prune_revoked vault other ms keyed =
    count-delete_unread (is_pruned vault ms) (is_active_in other) ms
      (unread vault ms (is_active_in other) keyed λ m h. ground arith)

pub count_member-prune_revoked :
    (vault other : Text) (user_id : ℕ) (ms : List Membership)
    → IsKeyed id_of ms
    → count (is_active_member other user_id) (prune_revoked vault ms)
      ≡ count (is_active_member other user_id) ms
unfolding prune_revoked
count_member-prune_revoked vault other user_id ms keyed =
    count-delete_unread (is_pruned vault ms) (is_active_member other user_id) ms
      (unread vault ms (is_active_member other user_id) keyed λ m h. ground arith)

pub IsKeyed-prune_revoked :
    (vault : Text) (ms : List Membership)
    → IsKeyed id_of ms
    → IsKeyed id_of (prune_revoked vault ms)
unfolding prune_revoked
IsKeyed-prune_revoked vault ms keyed = IsKeyed-delete id_of (is_pruned vault ms) ms keyed

pub All-prune_revoked {κ} :
    (P : Membership → Type κ) (vault : Text) (ms : List Membership)
    → All P ms
    → All P (prune_revoked vault ms)
unfolding prune_revoked
All-prune_revoked P vault ms h = All-delete P (is_pruned vault ms) ms h
