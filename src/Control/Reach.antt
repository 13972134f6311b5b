-- ===== src/Control/Reach.antt =====
-- The end of a share and of a vault reach the connections that are open on it.
use blackglass_server.Base.{
  ℕ, ◌≡◌, refl, Bool, true, false, ◌&&◌, Option, none, some, [], ◌∷◌, ◌++◌, Text, ◌==◌, nat_eq,
  text_eq, arith, Outcome, ok, err, Option-cases, inl, inr,
}
use blackglass_server.Database.{Db}
use blackglass_server.Database.Triggers.{IsMetered}
use blackglass_server.Table.Keys.{IsKeyed}
use blackglass_server.Sharing.{remove_collaborator_for_session}
use blackglass_server.Sharing.Index.{IsShared}
use blackglass_server.Sharing.Removal.{
  IsRemoved, IsRemovalResult, remove_collaborator-IsRemovalResult,
}
use blackglass_server.Vaults.{vault_owner_user_id}
use blackglass_server.Vaults.Deletion.{id_of, IsDeletion, delete_vault-IsDeletion}
use blackglass_server.Live.{cancel_vault, cancel_user_vault}
use blackglass_server.Live.Registry.{IsEnded, cancels}
use blackglass_server.Control.State.{
  ControlConfig, Env, ControlState, done, VaultShareRemoveRequest,
}
use blackglass_server.Control.Shares.{handle_share_remove, remove_of, removed}
use blackglass_server.Control.Vaults.{handle_delete, deleted, invalidate_vault}

module _ (config : ControlConfig) (env : Env) (user_id : ℕ) (token_hash : Text) where
  -- The answer `done` comes from a removal that named a user.
  removed_done :
      (id : Text) (o : Outcome (Option ℕ × Db)) (s s' : ControlState)
      → removed config env user_id token_hash id o s ≡ (done, s')
      → (user : ℕ) × (db : Db) × (o ≡ ok (some user, db))
        × (s' ≡ record s { db = db; live = cancel_user_vault user id s.live })
  removed_done id (err x) s s' e = absurd (ground (arith, e))
  removed_done id (ok (none, db)) s s' e = absurd (ground (arith, e))
  removed_done id (ok (some user, db)) s s' e = (user, db, refl, ground (arith, e))

  remove_of_done :
      (id : Text) (share_uid : Option ℕ) (s s' : ControlState)
      → remove_of config env user_id token_hash id share_uid s ≡ (done, s')
      → (uid : ℕ) × (share_uid ≡ some uid)
        × (removed config env user_id token_hash id
              (remove_collaborator_for_session user_id token_hash id uid env.now s.db)
              s
            ≡ (done, s'))
  unfolding remove_of
  remove_of_done id share_uid s s' e = elim (Option-cases (vault_owner_user_id id s.db)) [
    | inl absent ↦ absurd (ground (arith, absent, e))
    | inr (owner, there) ↦ elim (Option-cases share_uid) [
      | inl missing ↦ absurd (ground (arith, there, missing, e))
      | inr (uid, given) ↦ (uid, given, ground (arith, there, given, e))
    ]
  ]

  -- With well-formed memberships, a removal that is answered by `done` names a membership of the
  -- vault that was active and is active no more; the user whose it was has by the rules of a removal
  -- no access to the vault but an owner's, and every connection of that user on it was told to close.
  pub share-IsRemoved :
      (r : VaultShareRemoveRequest) (id : Text) (s s' : ControlState)
      → IsShared s.db
      → r.vault_uid ≡ some id
      → handle_share_remove config env user_id token_hash (some r) s ≡ (done, s')
      → (uid user : ℕ) × (r.share_uid ≡ some uid)
        × IsRemoved user_id uid id s.db user s'.db
        × IsEnded (λ u v _. (u == user) && (v == id)) s'.live
  unfolding handle_share_remove
  share-IsRemoved r id s s' shared named e =
      let (uid, given, e') = remove_of_done id r.share_uid s s' (ground (arith, named, e)) in
      let (user, db, removal, after) = removed_done id _ s s' e' in
      (
        uid,
        user,
        given,
        rw after (
            unfold IsRemovalResult in
            remove_collaborator-IsRemovalResult user_id uid env.now token_hash id s.db db
              (some user) shared removal),
        rw after (
            unfold cancel_user_vault in
            cancels (λ u v _. (u == user) && (v == id)) _ s.live (λ x. refl)),
      )

  deleted_done :
      (id : Text) (o : Outcome (Bool × Db)) (s s' : ControlState)
      → deleted config env user_id token_hash id o s ≡ (done, s')
      → (db : Db) × (o ≡ ok (true, db)) × (s' ≡ invalidate_vault id (record s { db = db }))
  deleted_done id (err x) s s' e = absurd (ground (arith, e))
  deleted_done id (ok (false, db)) s s' e = absurd (ground (arith, e))
  deleted_done id (ok (true, db)) s s' e = (db, refl, ground (arith, e))

  -- With vault ids as keys and an exact meter, a deletion that is answered by `done` has deleted and
  -- retired the vault, every connection on it was told to close, and the last event is the vault's invalidation.
  pub vault_deleted :
      (id : Text) (s s' : ControlState)
      → IsKeyed id_of s.db.vaults
      → IsMetered s.db
      → handle_delete config env user_id token_hash (some (some id)) s ≡ (done, s')
      → IsDeletion user_id id s.db true s'.db
        × IsEnded (λ _ v _. v == id) s'.live
        × (s'.events
            ≡ s.events ++ record { uid = 0; vault = id; notice = none; invalidated = true } ∷ [])
  unfolding handle_delete
  vault_deleted id s s' keyed metered e =
      let (db, deletion, after) = deleted_done id _ s s' e in
      rw after (
        unfold invalidate_vault in
        (
          delete_vault-IsDeletion id user_id s.db keyed metered (some token_hash) env.now env.now_ms
              db true deletion,
          unfold cancel_vault in cancels (λ _ v _. v == id) _ s.live (λ x. refl),
          refl,
        ))
