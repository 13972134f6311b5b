-- ===== src/Socket/Messages/Guard.antt =====
-- Which messages can change the state of the server.
use blackglass_server.Base.{ℕ, ◌≡◌, ◌⊎◌, true, Option, none, some, List}
use blackglass_server.Socket.Session.{Config, Session, AppState}
use blackglass_server.Socket.Upload.{Push}
use blackglass_server.Socket.Init.{InitRequest}
use blackglass_server.Socket.Init.Admitted.{IsAdmission}
use blackglass_server.Socket.Messages.{
  Operation, initialise, purge_history, push, pull, restore, Message, json, binary, Reply, Context,
  operate, session_active,
}

-- The messages that may write on an authenticated connection: a push and its pieces, a restore, a purge,
-- and a pull, which renews the session.
pub data IsWrite : Message → Type 0 where
  pushes : (bytes : ℕ) (p : Push) → IsWrite (json bytes (some (push p)))
  uploads : (chunk : List ℕ) → IsWrite (binary chunk)
  restores : (bytes : ℕ) (uid : Option ℕ) → IsWrite (json bytes (some (restore uid)))
  pulls : (bytes : ℕ) (uid : Option ℕ) → IsWrite (json bytes (some (pull uid)))
  purges : (bytes : ℕ) → IsWrite (json bytes (some purge_history))

module _ (config : Config) (c : Context) where
  abbrev MayWrite : Session → Operation → AppState → Type 0
  MayWrite session op s =
      (((operate config c session op s).1 ≡ session) × ((operate config c session op s).2 ≡ s))
      ⊎ ((bytes : ℕ) → IsWrite (json bytes (some op)))

  abbrev Outcomes : Session → Message → AppState → Reply × Session × AppState → Type 0
  Outcomes session m s out =
      ((out.1 ≡ session) × (out.2 ≡ s)) ⊎ ((session_active config c session s ≡ true) × IsWrite m)

  -- What a message of a connection that has not joined may do: nothing, or an `init` that is admitted.
  abbrev pub OfNew : Message → AppState → Option Session → AppState → Type 0
  OfNew m s connection' s' =
      ((connection' ≡ none) × (s' ≡ s))
      ⊎ ((bytes : ℕ) × (r : InitRequest) × (m ≡ json bytes (some (initialise r)))
          × IsAdmission config c.hash_of c.now r s connection' s')
