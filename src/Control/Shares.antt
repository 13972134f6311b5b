-- ===== src/Control/Shares.antt =====
-- The handlers of sharing: list, invite and remove.
use blackglass_server.Base.{
  ℕ, not, Option, none, some, Text, within, Outcome, ok, err, Error, sharing_user_unavailable,
  collaborator_limit_reached, membership_capacity_reached, membership_sequence_exhausted,
  sharing_vault_unavailable, if◌then◌else◌,
}
use blackglass_server.Database.{Db, max_js_safe_integer}
use blackglass_server.Auth.{CanonicalEmail, canonicalize_email}
use blackglass_server.Limits.Invites.{admit}
use blackglass_server.Sharing.{
  VaultShareItem, list_shares_for_owner, invite_collaborator_for_session,
  remove_collaborator_for_session,
}
use blackglass_server.Vaults.{vault_owner_user_id}
use blackglass_server.Live.{cancel_user_vault}
use blackglass_server.Control.State.{
  ControlConfig, sharing_allowed_for_owner, Env, ControlState, Refusal, sharing_unavailable,
  unable_to_list, unable_to_invite, user_unavailable, invite_rate_limited, collaborator_limit,
  sharing_capacity, unable_to_remove, internal, Response, done, share, shares, refused,
  VaultShareInviteRequest, VaultShareRemoveRequest,
}

module _ (config : ControlConfig) (env : Env) (user_id : ℕ) (token_hash : Text) where
  unfoldable pub handle_share_list : Option (Option Text) → ControlState → Response × ControlState
  handle_share_list request s =
      if not (sharing_allowed_for_owner config user_id)
      then (refused sharing_unavailable, s)
      else elim request [
        | none ↦ (refused unable_to_list, s)
        | some none ↦ (refused unable_to_list, s)
        | some (some id) ↦ elim (list_shares_for_owner user_id id s.db) [
          | none ↦ (refused unable_to_list, s)
          | some items ↦ (shares items, s)
        ]
      ]

  -- The message that an error of the invitation becomes.
  abbrev pub invite_refusal : Error → Refusal
  invite_refusal sharing_user_unavailable = user_unavailable
  invite_refusal collaborator_limit_reached = collaborator_limit
  invite_refusal membership_capacity_reached = sharing_capacity
  invite_refusal membership_sequence_exhausted = sharing_capacity
  invite_refusal sharing_vault_unavailable = unable_to_invite
  invite_refusal e = internal e

  abbrev pub invited : Outcome (VaultShareItem × Db) → ControlState → Response × ControlState
  invited (err e) s = (refused (invite_refusal e), s)
  invited (ok (item, db)) s = (share item, record s { db = db })

  -- The limits are asked, and count the attempt, before the database is.
  unfoldable pub admit_and_invite :
      Text → Text → CanonicalEmail → ControlState → Response × ControlState
  admit_and_invite id email canonical s =
      let (admitted, attempts) =
        admit env.digest_of env.source user_id canonical.canonical config.invites env.instant
          s.invite_attempts in
      let s' = record s { invite_attempts = attempts } in
      if not admitted
      then (refused invite_rate_limited, s')
      else invited
          (invite_collaborator_for_session user_id token_hash id email env.now env.now_again s.db)
          s'

  unfoldable pub handle_share_invite :
      Option VaultShareInviteRequest → ControlState → Response × ControlState
  unfolding admit_and_invite
  handle_share_invite request s =
      if not (sharing_allowed_for_owner config user_id)
      then (refused sharing_unavailable, s)
      else elim request [
        | none ↦ (refused unable_to_invite, s)
        | some r ↦ elim r.vault_uid [
          | none ↦ (refused unable_to_invite, s)
          | some id ↦ elim r.email [
            | none ↦ (refused user_unavailable, s)
            | some email ↦ elim (canonicalize_email email) [
              | err _ ↦ (refused user_unavailable, s)
              | ok canonical ↦ admit_and_invite id email canonical s
            ]
          ]
        ]
      ]

  abbrev pub removed : Text → Outcome (Option ℕ × Db) → ControlState → Response × ControlState
  removed id (err e) s = (refused (internal e), s)
  removed id (ok (none, db)) s = (refused unable_to_remove, record s { db = db })
  removed id (ok (some user, db)) s =
      (done, record s { db = db; live = cancel_user_vault user id s.live })

  unfoldable pub remove_of : Text → Option ℕ → ControlState → Response × ControlState
  remove_of id share_uid s = elim (vault_owner_user_id id s.db) [
    | none ↦ (refused unable_to_remove, s)
    | some owner ↦
        if not (sharing_allowed_for_owner config owner)
        then (refused sharing_unavailable, s)
        else elim share_uid [
          | none ↦ (refused unable_to_remove, s)
          | some uid ↦
              if not (within 1 max_js_safe_integer uid)
              then (refused unable_to_remove, s)
              else removed id
                  (remove_collaborator_for_session user_id token_hash id uid env.now s.db) s
        ]
  ]

  unfoldable pub handle_share_remove :
      Option VaultShareRemoveRequest → ControlState → Response × ControlState
  unfolding remove_of
  handle_share_remove none s = (refused unable_to_remove, s)
  handle_share_remove (some r) s = elim r.vault_uid [
    | none ↦ (refused unable_to_remove, s)
    | some id ↦ remove_of id r.share_uid s
  ]
