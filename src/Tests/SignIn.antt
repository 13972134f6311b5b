-- ===== src/Tests/SignIn.antt =====
-- Bob signs in, fails to, and Carol registers and signs in; messages on a connection.
use blackglass_server.Base.{
  none, is_some, ◌≡◌, refl, Bool, true, false, some, Option, [], ◌∷◌, Text, text, chains, text_beq,
  nat_eq, text_eq, ◌==◌, ◌+◌, map, arith, ltb, if◌then◌else◌,
}
use blackglass_server.Table.{find, exists, select, update, count}
use blackglass_server.Auth.{
  PasswordHash, canonicalize_email, normalize_display_name, validate_self_registered_password,
  password_hash_is_production_grade,
}
use blackglass_server.Accounts.{create_self_registered_user, insert_user, self_registration_enabled}
use blackglass_server.Database.{Db}
use blackglass_server.Limits.Map.{get, put}
use blackglass_server.Limits.Source.{
  Entries, admit_signin, entry_of, make_room, refund_successful_signin,
}
use blackglass_server.SignIn.{
  UserCredential, signin_candidate, granted, signed_in, check_password, authenticate_credentials,
  credential, register_account, admit_registration, Registration,
}
use blackglass_server.SignIn.Candidates.{IsGenuine, authenticate_credentials-IsGenuine}
use blackglass_server.SignIn.Uniform.{failures_look_alike}
use blackglass_server.SignIn.Roundtrip.{registered_signs_in}
use blackglass_server.Socket.Session.{Session, AppState, number}
use blackglass_server.Socket.Init.{InitRequest}
use blackglass_server.Sessions.{auth_context_hash, is_token, live_context, renew_session_for_vault}
use blackglass_server.Vaults.{find_authorized_vault, vault_owner_user_id}
use blackglass_server.Access.{vault_access}
use blackglass_server.Settings.{sharing_allowed_for_owner}
use blackglass_server.Limits.Concurrency.{try_acquire, count_of, set_count}
use blackglass_server.Revisions.{current_version}
use blackglass_server.Socket.Messages.{
  Context, Reply, initialise, json, handle_message, deleted_reply, if_active, too_large,
  removed_items, max_large_response_bytes,
}
use blackglass_server.Socket.Messages.Items.{joined_size}
use blackglass_server.Socket.Messages.Deleted.{deletions, deleted_reply-IsOneQuery}
use blackglass_server.Revisions.{revision_row}
use blackglass_server.Tests.Socket.{config, session, server}
use blackglass_server.Tests.Data.{hash_1, db, bob, note}

-- The hash of a password is the password, in this test.
abbrev matches : Text → Text → Bool
matches password hash = password == hash

abbrev address : Text
address = text "Bob@example.com"

abbrev after_signin : Entries
after_signin =
    (authenticate_credentials matches (text "?") 1 5 6 granted (some address) (some (text "x")) db
      []).1

bob_example : IsGenuine matches (some address) (some (text "x")) db (credential bob)
unfolding authenticate_credentials check_password signin_candidate canonicalize_email admit_signin
    entry_of make_room refund_successful_signin get put select find text_beq chains
bob_example =
    authenticate_credentials-IsGenuine matches (text "?") 1 5 6 granted (some address)
      (some (text "x")) db [] after_signin (credential bob) refl

alike_example :
    authenticate_credentials matches (text "?") 1 5 6 granted (some address) (some (text "y")) db []
    ≡ authenticate_credentials matches
        (text "?")
        1
        5
        6
        granted
        (some address)
        (some (text "y"))
        (record db { users = [] })
        []
unfolding authenticate_credentials check_password signin_candidate canonicalize_email admit_signin
    entry_of make_room refund_successful_signin get put select find text_beq chains
alike_example =
    failures_look_alike matches (text "?") 1 5 6 granted (some address) (some (text "y")) db []
      (λ u e. cc)

abbrev parse : Text → Option PasswordHash
parse _ = some (record {
  algorithm = text "argon2id";
  version = some 19;
  params = (text "m", some 19456) ∷ (text "t", some 2) ∷ (text "p", some 1) ∷ [];
  salt_length = some 16;
  output_length = some 32;
})

abbrev carol : Text
carol = text "carol@example.com"

abbrev secret : Text
secret = text "correct horse"

abbrev registered_carol : Registration × Db × Entries
registered_carol = register_account parse (λ p. p) 1 5 granted carol (text "Carol") secret 7 db []

roundtrip_example :
    (u : UserCredential) × ((authenticate_credentials matches
        (text "?")
        2
        9
        10
        granted
        (some carol)
        (some secret)
        registered_carol.1
        []).0
      ≡ signed_in u)
    × (u.id ≡ 3)
unfolding register_account admit_registration create_self_registered_user canonicalize_email
    normalize_display_name validate_self_registered_password password_hash_is_production_grade
    insert_user self_registration_enabled admit_signin entry_of make_room get put select exists
    text_beq chains
roundtrip_example =
    registered_signs_in parse (λ p. p) matches (text "?") 1 5 10 7 3 granted carol (text "Carol")
      secret db registered_carol.1 [] registered_carol.2 [] 2 9 refl refl refl

abbrev context : Context
context = record {
  now = 5;
  ts = 6;
  clock = λ n. 5;
  stops = λ n. false;
  hash_of = λ t. t;
  still_active = true;
  stopping = false;
  fuel = 4;
  notice_size = λ _. 10;
  event_size = λ _. 10;
  item_size = λ _. 10;
  items_size = λ _ _. 10;
}

-- Alice's client joins her vault.
abbrev joins : InitRequest
joins = record {
  token = hash_1;
  id = text "v1";
  keyhash = none;
  encryption_version = some 3;
  version = some (number 2);
  device = none;
  initial = false;
}

abbrev joined_now : Reply × Option Session × AppState
joined_now = handle_message config context none (json 20 (some (initialise joins))) server

alice_joins : is_some joined_now.1 ≡ true
unfolding handle_message auth_context_hash is_token live_context find exists find_authorized_vault
    vault_access renew_session_for_vault vault_owner_user_id sharing_allowed_for_owner try_acquire
    count_of set_count get put update current_version text_beq chains count
alice_joins = refl

-- Alice's file, and its deletion.
abbrev removed_note : AppState
removed_note = record server {
  db = record db { revisions = note ∷ record note { uid = 2; deleted = true } ∷ [] };
}

deleted_example : deleted_reply config context session false removed_note ≡ (
    if ltb max_large_response_bytes (
      10
      + joined_size context.item_size true
          (map revision_row (deletions session.vault false removed_note.db.revisions 0))
      + 2)
    then (too_large, removed_note)
    else if_active config context
        (removed_items
          (map revision_row (deletions session.vault false removed_note.db.revisions 0)))
        removed_note)
deleted_example =
    deleted_reply-IsOneQuery config context session false removed_note ((omega arith, tt), (tt, tt))
      (omega arith)
