-- ===== src/Socket/Init/Admitted.antt =====
-- Who joins a vault, and what joining writes.
use blackglass_server.Base.{
  ℕ, ◌≡◌, ◌⊎◌, inl, inr, refl, Bool, true, false, not, ◌||◌, Option, none, some, List, Text, ◌==◌,
  text_eq, nat_eq, text_beq_iff, arith, Outcome, ok, err, Option-cases, Bool-cases, ltb, leb,
  length, ◌&&◌, if◌then◌else◌,
}
use blackglass_server.Database.{Db, SessionRow, is_live}
use blackglass_server.Table.{find, update}
use blackglass_server.Limits.Map.{get, or_default}
use blackglass_server.Revisions.{current_version}
use blackglass_server.Sessions.{
  AuthContext, auth_context_hash, renew_session_for_vault, may_use, renewal_threshold,
  renewed_expiry, is_due, extend,
}
use blackglass_server.Access.{VaultAccess}
use blackglass_server.Vaults.{Vault, find_authorized_vault, vault_owner_user_id}
use blackglass_server.Limits.Concurrency.{
  UserConcurrencyEntry, UserConcurrencyPermit, connection, try_acquire, count_of, no_permits,
}
use blackglass_server.Socket.Session.{Config, Session, AppState}
use blackglass_server.Socket.Init.{
  InitRequest, InitAnswer, init, start_session, counted, versioned, renewed, opened, identified,
  is_unshared, same_text, same_number, client_version, has_session_shape,
}

-- The state after differs in the sessions and the counted connections only.
abbrev pub WritesSessions : AppState → AppState → Type 0
WritesSessions s s' =
    (sessions : List SessionRow) × (entries : List (ℕ × UserConcurrencyEntry)) × (s'
      ≡ record s { db = record s.db { sessions = sessions }; user_concurrency = entries })

-- No session, or one of the context on the vault with nothing pending.
abbrev pub IsSessionOf : AuthContext → Vault → Option Session → Type 0
IsSessionOf context v none = Unit
IsSessionOf context v (some session) =
    (session.token_hash ≡ context.token_hash)
    × (session.user_id ≡ context.user_id)
    × (session.vault ≡ v.id)
    × (session.pending ≡ none)
    × (session.user_connection_permit ≡ record { user_id = context.user_id; kind = connection })

-- The token authenticates, its user may open the vault, and the keys are the vault's.
pub record IsAdmission (config : Config) (hash_of : Text → Text) (now : ℕ) (r : InitRequest)
    (s : AppState) (connection' : Option Session) (s' : AppState) : Type 0 where
  pub context : AuthContext
  pub authenticated : auth_context_hash (hash_of r.token) now s.db ≡ some context
  pub vault : Vault
  pub access : VaultAccess
  pub opened : find_authorized_vault context.user_id r.id s.db ≡ ok (some (vault, access))
  pub shared : is_unshared config access (vault_owner_user_id r.id s.db) ≡ false
  pub same_key : r.keyhash ≡ vault.keyhash
  pub same_version : r.encryption_version ≡ some vault.encryption_version
  pub session : IsSessionOf context vault connection'
  pub writes : WritesSessions s s'

renewal_writes :
    (hash vault : Text) (ttl now : ℕ) (db : Db)
    → (sessions : List SessionRow) × ((renew_session_for_vault hash vault ttl now db).1
        ≡ record db { sessions = sessions })
unfolding renew_session_for_vault
renewal_writes hash vault ttl now db =
    let usable = λ (s : SessionRow). is_live hash now s && may_use db vault s.user_id in
    elim (Bool-cases (not (length hash == 64) || length vault == 0)) [
      | inl bad ↦ (db.sessions, rw bad refl)
      | inr good ↦ elim (Option-cases (find usable db.sessions)) [
        | inl nobody ↦ (db.sessions, rw (good, nobody) refl)
        | inr (s, found) ↦ elim (Bool-cases (ltb (renewal_threshold ttl now) s.expires_at)) [
          | inl late ↦ (db.sessions, rw (good, found, late) refl)
          | inr due ↦ (
            update (is_due (may_use db vault) hash now (renewal_threshold ttl now))
                (extend (renewed_expiry ttl now)) db.sessions,
            rw (good, found, due) refl,
          )
        ]
      ]
    ]

text_of : (a b : Option Text) → same_text a b ≡ true → a ≡ b
text_of none none h = refl
text_of none (some b) h = cc
text_of (some a) none h = cc
text_of (some a) (some b) h = ground (arith, text_beq_iff a b)

number_of : (a : Option ℕ) (n : ℕ) → same_number a n ≡ true → a ≡ some n
number_of none n h = cc
number_of (some m) n h = ground arith

-- A permit that is granted is the user's, for a connection.
acquired :
    (user_id limit : ℕ) (entries : List (ℕ × UserConcurrencyEntry))
    → let out = try_acquire user_id connection limit entries in
      (out.0 ≡ none) ⊎ (out.0 ≡ some (record { user_id = user_id; kind = connection }))
unfolding try_acquire
acquired user_id limit entries =
    elim (Bool-cases
      (leb limit (count_of connection (or_default no_permits (get user_id entries))))) [
        | inl full ↦ inl (rw full refl)
        | inr free ↦ inr (rw free refl)
      ]

abbrev IsJoin : AuthContext → Vault → AppState → InitAnswer × Option Session × AppState → Type 0
IsJoin context v s out = IsSessionOf context v out.1 × WritesSessions s out.2

module _ (config : Config) (hash_of : Text → Text) (now renewed_at : ℕ) (r : InitRequest)
    (context : AuthContext) (v : Vault) where
  starts :
      (version : ℕ) (permit : UserConcurrencyPermit) (s₀ s : AppState)
      → permit ≡ record { user_id = context.user_id; kind = connection }
      → WritesSessions s₀ s
      → IsJoin context v s₀
          (start_session config hash_of now renewed_at r context v version permit s)
  unfolding start_session
  starts version permit s₀ s own w =
      elim (Bool-cases (not r.initial && ltb (current_version v.id s.db) version)) [
        | inl ahead ↦ rw ahead ((refl, refl, refl, refl, own), w)
        | inr fine ↦ rw fine ((refl, refl, refl, refl, own), w)
      ]

  counts :
      (version : ℕ) (s₀ s : AppState)
      (out : Option UserConcurrencyPermit × List (ℕ × UserConcurrencyEntry))
      → (out.0 ≡ none) ⊎ (out.0 ≡ some (record { user_id = context.user_id; kind = connection }))
      → ((sessions : List SessionRow) × (s
            ≡ record s₀ { db = record s₀.db { sessions = sessions } }))
      → IsJoin context v s₀ (counted config hash_of now renewed_at r context v version s out)
  counts version s₀ s (none, entries) own (sessions, e) = (tt, (sessions, entries, rw e refl))
  counts version s₀ s (some permit, entries) own (sessions, e) =
      starts version permit s₀ (record s { user_concurrency = entries }) (ground (arith, own))
        (sessions, entries, rw e refl)

  versions :
      (s₀ s : AppState) (version : Option ℕ)
      → ((sessions : List SessionRow) × (s
            ≡ record s₀ { db = record s₀.db { sessions = sessions } }))
      → IsJoin context v s₀ (versioned config hash_of now renewed_at r context v s version)
  versions s₀ s none (sessions, e) = (tt, (sessions, s₀.user_concurrency, rw e refl))
  versions s₀ s (some version) e =
      counts version s₀ s _
        (acquired context.user_id config.max_ws_connections_per_user s.user_concurrency) e

  renews :
      (s : AppState) (out : Option Bool × Db)
      → ((sessions : List SessionRow) × (out.1 ≡ record s.db { sessions = sessions }))
      → IsJoin context v s (renewed config hash_of now renewed_at r context v s out)
  renews s (none, db) (sessions, e) = (tt, (sessions, s.user_concurrency, rw e refl))
  renews s (some b, db) (sessions, e) =
      versions s (record s { db = db }) (client_version r.version) (sessions, rw e refl)

-- Nothing happened, or the request was admitted.
abbrev pub IsInitOutcome :
    Config → (Text → Text) → ℕ → InitRequest → AppState → Option Session → AppState → Type 0
IsInitOutcome config hash_of now r s connection' s' =
    ((connection' ≡ none) × (s' ≡ s)) ⊎ IsAdmission config hash_of now r s connection' s'

module _ (config : Config) (hash_of : Text → Text) (now renewed_at : ℕ) (r : InitRequest)
    (s : AppState) where
  abbrev Admits : InitAnswer × Option Session × AppState → Type 0
  Admits out = IsInitOutcome config hash_of now r s out.1 out.2

  opens :
      (context : AuthContext) (found : Outcome (Option (Vault × VaultAccess)))
      → auth_context_hash (hash_of r.token) now s.db ≡ some context
      → find_authorized_vault context.user_id r.id s.db ≡ found
      → Admits (opened config hash_of now renewed_at r context s found)
  opens context (err e) authenticated f = inl (refl, refl)
  opens context (ok none) authenticated f = inl (refl, refl)
  opens context (ok (some (v, access))) authenticated f =
      elim (Bool-cases (is_unshared config access (vault_owner_user_id r.id s.db))) [
        | inl unshared ↦ rw unshared (inl (refl, refl))
        | inr shares ↦
            elim (Bool-cases (
              not (same_text r.keyhash v.keyhash)
              || not (same_number r.encryption_version v.encryption_version))) [
                | inl wrong ↦ rw (shares, wrong) (inl (refl, refl))
                | inr right ↦
                    let keyed : r.keyhash ≡ v.keyhash =
                      text_of r.keyhash v.keyhash (ground (arith, right)) in
                    let versioned_too : r.encryption_version ≡ some v.encryption_version =
                      number_of r.encryption_version v.encryption_version (ground (arith, right)) in
                    let (session, writes) = renews config hash_of now renewed_at r context v s _ (
                      renewal_writes context.token_hash v.id config.control.session_ttl renewed_at
                        s.db) in
                    rw (shares, right)
                      (inr (record {
                        context = context;
                        authenticated = authenticated;
                        vault = v;
                        access = access;
                        opened = f;
                        shared = shares;
                        same_key = keyed;
                        same_version = versioned_too;
                        session = session;
                        writes = writes;
                      }))
              ]
      ]

  identifies :
      (shape : Bool)
      → Admits (
          identified config hash_of now renewed_at r
            (if shape then auth_context_hash (hash_of r.token) now s.db else none)
            s)
  identifies false = inl (refl, refl)
  identifies true = of_context (auth_context_hash (hash_of r.token) now s.db) refl
    where
      of_context :
          (o : Option AuthContext)
          → auth_context_hash (hash_of r.token) now s.db ≡ o
          → Admits (identified config hash_of now renewed_at r o s)
      of_context none e = inl (refl, refl)
      of_context (some context) e = opens context _ e refl

  pub init-IsAdmission : Admits (init config hash_of now renewed_at r s)
  unfolding init
  init-IsAdmission = identifies (has_session_shape r.token)
