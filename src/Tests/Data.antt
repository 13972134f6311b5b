-- ===== src/Tests/Data.antt =====
-- A small database: two accounts, a session of each, two vaults and some revisions.
use blackglass_server.Base.{ℕ, suc, zero, true, false, none, [], ◌∷◌, Text, text, Outcome, ok, err}
use blackglass_server.Database.{Db, User, active, admin, user, SessionRow, VaultRow, RevisionRow}

-- The text of `n` bytes `c`.
abbrev pub repeat : ℕ → ℕ → Text
repeat c zero = []
repeat c (suc n) = c ∷ repeat c n

-- Hashes of 64 hexadecimal digits.
abbrev pub hash_1 : Text
hash_1 = repeat 49 64

abbrev pub hash_2 : Text
hash_2 = repeat 50 64

abbrev pub alice : User
alice = record {
  id = 1;
  email_canonical = text "alice@example.com";
  email = text "alice@example.com";
  name = text "Alice";
  password_hash = text "x";
  status = active;
  role = admin;
  created_at = 1;
  updated_at = 1;
}

abbrev pub bob : User
bob = record alice {
  id = 2;
  email_canonical = text "bob@example.com";
  email = text "Bob@example.com";
  name = text "Bob";
  role = user;
}

abbrev pub vault : VaultRow
vault = record {
  id = text "v1";
  name = text "Notes";
  keyhash = none;
  salt = none;
  host = text "h";
  region = text "r";
  encryption_version = 3;
  size = 7;
  created = 1;
  password = none;
  version = 2;
  owner_user_id = 1;
}

abbrev pub note : RevisionRow
note = record {
  uid = 1;
  vault_id = text "v1";
  path = text "a";
  relatedpath = none;
  extension = text "md";
  hash = text "h";
  ctime = 1;
  mtime = 1;
  folder = false;
  deleted = false;
  size = 3;
  pieces = 1;
  content = none;
  device = text "d";
  user_id = 1;
  ts = 1;
}

abbrev pub session_1 : SessionRow
session_1 = record {
  token_hash = hash_1;
  user_id = 1;
  created_at = 1;
  expires_at = 1000;
  revoked_at = none;
}

abbrev pub db : Db
db = record {
  users = alice ∷ bob ∷ [];
  users_sequence = 2;
  settings = record { self_registration_enabled = true; updated_at = 1; updated_by = 1 };
  sessions = session_1 ∷ record session_1 { token_hash = hash_2; user_id = 2 } ∷ [];
  vaults = vault ∷ record vault { id = text "v2"; owner_user_id = 2; size = 0; version = 0 } ∷ [];
  memberships = [];
  memberships_sequence = 0;
  retired_vaults = [];
  revisions = note ∷ record note { uid = 2; size = 4 } ∷ [];
  revisions_sequence = 2;
  revision_content = [];
  usage = 7;
}

abbrev pub value {ℓ} : {A : Type ℓ} → A → Outcome A → A
value d (ok a) = a
value d (err e) = d
