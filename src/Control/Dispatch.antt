-- ===== src/Control/Dispatch.antt =====
-- `authorized_control`: a request is answered for the account that its token authenticates.
use blackglass_server.Base.{
  ℕ, Bool, true, false, Option, none, some, List, Text, nat_eq, if◌then◌else◌,
}
use blackglass_server.Table.{select}
use blackglass_server.Database.{Db}
use blackglass_server.Sessions.{
  AuthContext, auth_context, auth_context_with_renewal, revoke_session,
}
use blackglass_server.Vaults.{SharedVault, list_vaults_for_user, list_shared_vaults_for_user}
use blackglass_server.Live.{cancel_session}
use blackglass_server.Control.State.{
  ControlConfig, sharing_allowed_for_owner, Env, ControlState, Response, done, subscription,
  regions, account, vaults, refused, not_logged_in, unavailable, unknown_path, Request,
  user_signout, user_info, subscription_list, unavailable_path, vault_regions, vault_list,
  other_path, vault_create, vault_access, vault_migrate, vault_rename, vault_delete, share_list,
  share_invite, share_remove,
}
use blackglass_server.Control.Vaults.{
  handle_create, handle_access, handle_migrate, handle_rename, handle_delete,
}
use blackglass_server.Control.Shares.{handle_share_list, handle_share_invite, handle_share_remove}

module _ (config : ControlConfig) (env : Env) where
  unfoldable pub shared_inventory : ℕ → Db → List SharedVault
  shared_inventory user_id db =
      select (λ (v : SharedVault). sharing_allowed_for_owner config v.owner_user_id)
        (list_shared_vaults_for_user user_id db)

  -- The handler of each path, for the account of the context.
  unfoldable pub answer : Text → AuthContext → Request → ControlState → Response × ControlState
  unfolding shared_inventory
  answer token context user_signout s = (
    done,
    record s {
      db = revoke_session env.hash_of token env.now s.db;
      live = cancel_session context.token_hash s.live;
    },
  )
  answer token context user_info s = (account context.email context.name, s)
  answer token context subscription_list s = (subscription, s)
  answer token context unavailable_path s = (refused unavailable, s)
  answer token context vault_regions s = (regions, s)
  answer token context vault_list s = (
    vaults (list_vaults_for_user context.user_id s.db) (shared_inventory context.user_id s.db),
    s,
  )
  answer token context (vault_create r) s =
      handle_create config env context.user_id context.token_hash r s
  answer token context (vault_access r) s =
      handle_access config env context.user_id context.token_hash r s
  answer token context (vault_migrate r) s =
      handle_migrate config env context.user_id context.token_hash r s
  answer token context (vault_rename r) s =
      handle_rename config env context.user_id context.token_hash r s
  answer token context (vault_delete r) s =
      handle_delete config env context.user_id context.token_hash r s
  answer token context (share_list r) s =
      handle_share_list config env context.user_id context.token_hash r s
  answer token context (share_invite r) s =
      handle_share_invite config env context.user_id context.token_hash r s
  answer token context (share_remove r) s =
      handle_share_remove config env context.user_id context.token_hash r s
  answer token context other_path s = (refused unknown_path, s)

  -- A sign-out does not renew the session that it ends.
  abbrev pub renews : Request → Bool
  renews user_signout = false
  renews _ = true

  unfoldable pub authenticate : Text → Request → Db → Option AuthContext × Db
  authenticate token request db =
      if renews request
      then (let ((context, _), db') =
            auth_context_with_renewal env.hash_of token config.session_ttl env.now db in
          (context, db'))
      else (auth_context env.hash_of token env.now db, db)

  unfoldable pub authorized_control : Option Text → Request → ControlState → Response × ControlState
  unfolding authenticate answer
  authorized_control none request s = (refused not_logged_in, s)
  authorized_control (some token) request s =
      let (context, db) = authenticate token request s.db in
      let s' = record s { db = db } in
      elim context [ none ↦ (refused not_logged_in, s') | some c ↦ answer token c request s' ]
