-- ===== src/Control/Safety.antt =====
-- What the control API promises beyond one operation: a token that authenticates nobody reaches no
-- handler, and a change of authority reaches the connections that are open.
use blackglass_server.Base.{
  ℕ, ◌≡◌, refl, sym, subst, Option, none, some, List, [], ◌∷◌, Text, ◌==◌, nat_eq, text_eq,
  text_beq_iff, arith, Option-cases, Bool-cases, inl, inr,
}
use blackglass_server.Table.{find}
use blackglass_server.Database.{Db, User, SessionRow, is_live, is_active_user}
use blackglass_server.Sessions.{
  AuthContext, with_user, live_context, auth_context, auth_context_hash, auth_context_with_renewal,
  auth_context_hash_with_renewal, revoke_session, first,
}
use blackglass_server.Live.{cancel_session}
use blackglass_server.Live.Registry.{IsEnded, cancels}
use blackglass_server.Control.State.{
  ControlConfig, Env, ControlState, Response, done, refused, not_logged_in, Request, user_signout,
}
use blackglass_server.Control.Dispatch.{authorized_control, authenticate, answer}
use blackglass_server.Sessions.Ended.{SessionSteps, dead_context, steps-IsDead, revoked-IsDead}

-- A token without a live session is refused whatever it asks for, and nothing changes.
pub refuses_unauthenticated :
    (config : ControlConfig) (env : Env) (token : Text) (request : Request) (s : ControlState)
    → live_context (env.hash_of token) env.now s.db ≡ none
    → authorized_control config env (some token) request s ≡ (refused not_logged_in, s)
unfolding authorized_control
refuses_unauthenticated config env token request s absent =
    let (context, db) = authenticate config env token request s.db in
    let nobody : authenticate config env token request s.db ≡ (none, s.db) =
      unfold authenticate auth_context auth_context_hash auth_context_with_renewal
        auth_context_hash_with_renewal in
      ground (arith, absent) in
    subst
      (λ (x : Option AuthContext × Db).
        (elim x.0 as (λ _. Response × ControlState) [
          | none ↦ (refused not_logged_in, record s { db = x.1 })
          | some c ↦ answer config env token c request (record s { db = x.1 })
        ])
        ≡ (refused not_logged_in, s))
      (sym nobody) refl

-- The context is that of the token.
live_hash :
    (hash : Text) (now : ℕ) (users : List User) (rows : List SessionRow) (c : AuthContext)
    → first (with_user users (find (is_live hash now) rows)) ≡ some c
    → c.token_hash ≡ hash
unfolding find
live_hash hash now users [] c e = cc
live_hash hash now users (s ∷ rows) c e = elim (Bool-cases (is_live hash now s)) [
  | inr dead ↦ live_hash hash now users rows c (rw dead at e)
  | inl live ↦ elim (Option-cases (find (is_active_user s.user_id) users)) [
    | inl missing ↦ ground (arith, live, missing, e)
    | inr (u, found) ↦ ground (arith, live, found, e, text_beq_iff s.token_hash hash)
  ]
]

-- A sign-out that is answered: every connection of the session was told to close, and in every state
-- whose database the operations on sessions reach from there, as long as no session is issued under
-- the same hash, the token is refused at any time and from anywhere, whatever it asks for, without a
-- change of the state. Operations on other tables may come between them.
pub signed_out :
    (config : ControlConfig) (env later : Env) (token : Text) (request : Request)
    (s s' t : ControlState)
    → authorized_control config env (some token) user_signout s ≡ (done, s')
    → later.hash_of token ≡ env.hash_of token
    → SessionSteps env.hash_of (env.hash_of token) s'.db t.db
    → (authorized_control config later (some token) request t ≡ (refused not_logged_in, t))
      × IsEnded (λ _ _ h. h == env.hash_of token) s'.live
unfolding authorized_control authenticate answer
signed_out config env later token request s s' t e same steps =
    elim (Option-cases (auth_context env.hash_of token env.now s.db)) [
      | inl nobody ↦ absurd (ground (arith, nobody, e))
      | inr (c, somebody) ↦
          let ended : s' ≡ record s {
            db = revoke_session env.hash_of token env.now s.db;
            live = cancel_session c.token_hash s.live;
          } =
            ground (arith, somebody, e) in
          let own : c.token_hash ≡ env.hash_of token =
            unfold auth_context auth_context_hash live_context in
            live_hash (env.hash_of token) env.now s.db.users s.db.sessions c
              (ground (arith, somebody)) in
          (
            refuses_unauthenticated config later token request t (
                rw same (
                  dead_context (env.hash_of token) later.now t.db (
                    steps-IsDead env.hash_of (env.hash_of token) s'.db t.db steps
                      (rw ended (revoked-IsDead env.hash_of token env.now s.db))))),
            rw (ended, own)
                (unfold cancel_session in
                  cancels (λ _ _ h. h == env.hash_of token) _ s.live (λ x. refl)),
          )
    ]
