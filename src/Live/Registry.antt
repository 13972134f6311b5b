-- ===== src/Live/Registry.antt =====
-- The registry through all its operations: it stays within its capacity, ids tell entries apart, and
-- no operation takes a cancellation back.
use blackglass_server.Base.{
  ℕ, ◌≤◌, ◌<◌, ◌≡◌, refl, sym, ◌∙◌, Bool, Bool-cases, inl, inr, All-append, true, false, ◌&&◌, List,
  [], ◌∷◌, ◌++◌, All, arith, length, length-append, Text, ◌==◌, nat_eq, text_eq, leb,
}
use blackglass_server.Table.{update, delete}
use blackglass_server.Table.Keys.{IsFresh, IsKeyed, IsKeyed-append, IsKeyed-delete, IsKeyed-update}
use blackglass_server.Table.Laws.{All-update, All-delete}
use blackglass_server.Live.{
  LiveEntry, has_id, register, cancel, cancel_session, cancel_vault, cancel_user_vault, activity,
  protocol_activity, drop_guard,
}

abbrev pub id_of : LiveEntry → Text
id_of e = e.connection.id

-- Which connections a change of authority is about, by their user, vault and session.
abbrev pub Who : Type 0
Who = ℕ → Text → Text → Bool

abbrev pub is_about : Who → LiveEntry → Bool
is_about who e = who e.connection.user_id e.connection.vault_id e.session_hash

-- One operation, once nobody of `who` can register any more; a registration draws an id that no entry
-- has.
pub data Step (max : ℕ) (who : Who) : List LiveEntry → List LiveEntry → Type 0 where
  registers :
      {es : List LiveEntry} (id : Text) (now user_id : ℕ) (session_hash vault device : Text)
      (cursor : ℕ)
      → IsFresh id_of id es
      → who user_id vault session_hash ≡ false
      → Step max who es (register max id now user_id session_hash vault device cursor es).1
  session_ends : {es : List LiveEntry} (h : Text) → Step max who es (cancel_session h es)
  vault_ends : {es : List LiveEntry} (v : Text) → Step max who es (cancel_vault v es)
  share_ends : {es : List LiveEntry} (u : ℕ) (v : Text) → Step max who es (cancel_user_vault u v es)
  acts :
      {es : List LiveEntry} (id : Text) (cursor : ℕ) (state : Text) (now : ℕ)
      → Step max who es (activity id cursor state now es)
  receives :
      {es : List LiveEntry} (id state : Text) (now : ℕ)
      → Step max who es (protocol_activity id state now es)
  drops : {es : List LiveEntry} (id : Text) → Step max who es (drop_guard id es)

pub data Steps (max : ℕ) (who : Who) : List LiveEntry → List LiveEntry → Type 0 where
  stay : (es : List LiveEntry) → Steps max who es es
  then_step :
      {es fs gs : List LiveEntry} → Steps max who es fs → Step max who fs gs → Steps max who es gs

-- Every connection of `who` has been told to close.
abbrev pub IsEnded : Who → List LiveEntry → Type 0
IsEnded who = All (λ (e : LiveEntry). is_about who e ≡ true → e.cancelled ≡ true)

pub record IsRegistry (max : ℕ) (es : List LiveEntry) : Type 0 where
  pub bounded : length es ≤ max
  pub keyed : IsKeyed id_of es

length-update :
    (p : LiveEntry → Bool) (f : LiveEntry → LiveEntry) (es : List LiveEntry)
    → length (update p f es) ≡ length es
unfolding update
length-update p f [] = refl
length-update p f (e ∷ es) = omega (arith, length-update p f es)

length-delete : (p : LiveEntry → Bool) (es : List LiveEntry) → length (delete p es) ≤ length es
unfolding delete
length-delete p [] = omega arith
length-delete p (e ∷ es) = ground (arith, length-delete p es)

update-IsRegistry :
    (max : ℕ) (p : LiveEntry → Bool) (f : LiveEntry → LiveEntry) (es : List LiveEntry)
    → ((e : LiveEntry) → id_of (f e) ≡ id_of e)
    → IsRegistry max es
    → IsRegistry max (update p f es)
update-IsRegistry max p f es k h = record {
  bounded = omega (arith, h.bounded, length-update p f es);
  keyed = IsKeyed-update id_of p f es k h.keyed;
}

append-IsRegistry :
    (max : ℕ) (es : List LiveEntry) (e : LiveEntry)
    → length es < max
    → IsFresh id_of (id_of e) es
    → IsRegistry max es
    → IsRegistry max (es ++ e ∷ [])
append-IsRegistry max es e room new h = record {
  bounded = omega (arith, room, length-append es (e ∷ []));
  keyed = IsKeyed-append id_of es e h.keyed new;
}

Step-IsRegistry :
    (max : ℕ) (who : Who) (es fs : List LiveEntry)
    → Step max who es fs
    → IsRegistry max es
    → IsRegistry max fs
unfolding register cancel_session cancel_vault cancel_user_vault activity protocol_activity
    drop_guard
Step-IsRegistry max who es fs (registers id now user_id session_hash vault device cursor new other)
      h =
    elim (Bool-cases (leb max (length es))) [
      | inl full ↦ rw full h
      | inr room ↦ rw room (append-IsRegistry max es _ (ground arith) new h)
    ]
Step-IsRegistry max who es fs (session_ends x) h = update-IsRegistry max _ cancel es (λ e. refl) h
Step-IsRegistry max who es fs (vault_ends v) h = update-IsRegistry max _ cancel es (λ e. refl) h
Step-IsRegistry max who es fs (share_ends u v) h = update-IsRegistry max _ cancel es (λ e. refl) h
Step-IsRegistry max who es fs (acts id cursor state now) h =
    update-IsRegistry max _ _ es (λ e. refl) h
Step-IsRegistry max who es fs (receives id state now) h = update-IsRegistry max _ _ es (λ e. refl) h
Step-IsRegistry max who es fs (drops id) h = record {
  bounded = omega (arith, h.bounded, length-delete (has_id id) es);
  keyed = IsKeyed-delete id_of (has_id id) es h.keyed;
}

module _ (who : Who) where
  abbrev Ended : LiveEntry → Type 0
  Ended e = is_about who e ≡ true → e.cancelled ≡ true

  update-IsEnded :
      (p : LiveEntry → Bool) (f : LiveEntry → LiveEntry) (es : List LiveEntry)
      → ((e : LiveEntry) → is_about who (f e) ≡ is_about who e)
      → ((e : LiveEntry) → e.cancelled ≡ true → (f e).cancelled ≡ true)
      → IsEnded who es
      → IsEnded who (update p f es)
  update-IsEnded p f es same kept h =
      All-update Ended p f es (λ e _ ended about. kept e (ended (sym (same e) ∙ about))) h

  Step-IsEnded :
      (max : ℕ) (es fs : List LiveEntry) → Step max who es fs → IsEnded who es → IsEnded who fs
  unfolding register cancel_session cancel_vault cancel_user_vault activity protocol_activity
      drop_guard
  Step-IsEnded max es fs (registers id now user_id session_hash vault device cursor new other) h =
      elim (Bool-cases (leb max (length es))) [
        | inl full ↦ rw full h
        | inr room ↦ rw room (All-append Ended es _ h (λ about. cc, tt))
      ]
  Step-IsEnded max es fs (session_ends x) h = update-IsEnded _ cancel es (λ e. refl) (λ e q. refl) h
  Step-IsEnded max es fs (vault_ends v) h = update-IsEnded _ cancel es (λ e. refl) (λ e q. refl) h
  Step-IsEnded max es fs (share_ends u v) h = update-IsEnded _ cancel es (λ e. refl) (λ e q. refl) h
  Step-IsEnded max es fs (acts id cursor state now) h =
      update-IsEnded _ _ es (λ e. refl) (λ e q. q) h
  Step-IsEnded max es fs (receives id state now) h = update-IsEnded _ _ es (λ e. refl) (λ e q. q) h
  Step-IsEnded max es fs (drops id) h = All-delete Ended (has_id id) es h

  Steps-IsEnded :
      (max : ℕ) (es fs : List LiveEntry) → Steps max who es fs → IsEnded who es → IsEnded who fs
  Steps-IsEnded max es fs (stay _) h = h
  Steps-IsEnded max es fs (then_step {fs = mid} before last) h =
      Step-IsEnded max mid fs last (Steps-IsEnded max es mid before h)

-- Cancelling those that a test selects ends all that are selected.
pub cancels :
    (who : Who) (p : LiveEntry → Bool) (es : List LiveEntry)
    → ((e : LiveEntry) → p e ≡ is_about who e)
    → IsEnded who (update p cancel es)
unfolding update
cancels who p [] h = tt
cancels who p (e ∷ es) h = ground (arith, h e, cancels who p es h)

-- In every state that an empty registry comes to, through registrations, cancellations, activity and
-- drops in any order, at most `max` connections are listed and their ids tell them apart.
pub Steps-IsRegistry :
    (max : ℕ) (who : Who) (es : List LiveEntry) → Steps max who [] es → IsRegistry max es
Steps-IsRegistry max who es (stay _) = record { bounded = omega arith; keyed = tt }
Steps-IsRegistry max who es (then_step {fs = mid} before last) =
    Step-IsRegistry max who mid es last (Steps-IsRegistry max who mid before)

-- The three changes of authority, whom each is about, and what it does.
pub data Cancellation : Type 0 where
  of_session : (session_hash : Text) → Cancellation
  of_vault : (vault_id : Text) → Cancellation
  of_share : (user_id : ℕ) (vault_id : Text) → Cancellation

abbrev pub who_of : Cancellation → Who
who_of (of_session session_hash) _ _ h = h == session_hash
who_of (of_vault vault_id) _ v _ = v == vault_id
who_of (of_share user_id vault_id) u v _ = (u == user_id) && (v == vault_id)

abbrev pub cancelled_by : Cancellation → List LiveEntry → List LiveEntry
cancelled_by (of_session session_hash) es = cancel_session session_hash es
cancelled_by (of_vault vault_id) es = cancel_vault vault_id es
cancelled_by (of_share user_id vault_id) es = cancel_user_vault user_id vault_id es

-- Once a session is cancelled, or a vault, or a user on a vault, every connection of it has been told
-- to close, and so it stays through any operations among which none registers it again.
pub cancellations_last :
    (max : ℕ) (c : Cancellation) (es fs : List LiveEntry)
    → Steps max (who_of c) (cancelled_by c es) fs
    → IsEnded (who_of c) fs
unfolding cancel_session cancel_vault cancel_user_vault
cancellations_last max (of_session session_hash) es fs steps =
    Steps-IsEnded _ max _ fs steps (cancels (λ _ _ h. h == session_hash) _ es (λ e. refl))
cancellations_last max (of_vault vault_id) es fs steps =
    Steps-IsEnded _ max _ fs steps (cancels (λ _ v _. v == vault_id) _ es (λ e. refl))
cancellations_last max (of_share user_id vault_id) es fs steps =
    Steps-IsEnded _ max _ fs steps
      (cancels (λ u v _. (u == user_id) && (v == vault_id)) _ es (λ e. refl))
