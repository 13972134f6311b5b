-- ===== src/Tests/Accounts.antt =====
-- Accounts and sessions: registration, changes of status and role, issue and renewal.
use blackglass_server.Base.{
  none, ◌≤◌, ◌+◌, ◌*◌, ◌≡◌, refl, true, false, Option, some, [], ◌∷◌, Text, text, ok, err, chains,
  last_administrator, nat_eq, text_eq, text_beq, arith, ◌⊎◌, is_some,
}
use blackglass_server.Table.{delete, update, count, exists, find}
use blackglass_server.Auth.{
  CanonicalEmail, separators, PasswordHash, canonicalize_email, normalize_display_name,
  password_hash_is_production_grade,
}
use blackglass_server.Auth.Emails.{IsLowerCaseOf, IsSpaced, canonicalize_email-IsSpaced}
use blackglass_server.Database.{Db, disabled, admin, is_live}
use blackglass_server.Accounts.{
  created, create_self_registered_user, set_user_status, set_user_role, insert_user,
}
use blackglass_server.Accounts.Registration.{
  Registered, create_self_registered_user-Registered, new_role, IsRevoked,
  CredentialChange-IsRevoked,
}
use blackglass_server.Accounts.Admins.{HasAdmin, set_user_status-HasAdmin, set_user_role-HasAdmin}
use blackglass_server.Sessions.{
  issue_session_for_user, auth_context_hash, auth_context_hash_with_renewal,
}
use blackglass_server.Sessions.Issue.{IsIssued, issue_session-IsIssued}
use blackglass_server.Sessions.Renewal.{lasts_until, renewal_authenticates}
use blackglass_server.Tests.Data.{db, hash_1, hash_2, repeat, value}

abbrev bob_at_home : Text
bob_at_home = text " Bob@Home "

abbrev bob_email : CanonicalEmail
bob_email = record { display = text "Bob@Home"; canonical = text "bob@home" }

email_example :
    ((e : CanonicalEmail) × (canonicalize_email bob_at_home ≡ ok e) × (e.display ≡ text "Bob@Home"))
    × IsSpaced bob_at_home bob_email.display
    × IsLowerCaseOf bob_email.canonical bob_email.display
    × (canonicalize_email bob_email.display ≡ ok bob_email)
    × (canonicalize_email bob_email.canonical
        ≡ ok (record { display = bob_email.canonical; canonical = bob_email.canonical }))
unfolding separators canonicalize_email chains
email_example =
    canonicalize_email-IsSpaced bob_at_home (text "Bob@Home")
      (text " ", text " ", refl, refl, refl, (refl, refl, refl)) bob_at_home bob_email refl

-- A parser that finds sound parameters in every text.
abbrev parse : Text → Option PasswordHash
parse _ = some (record {
  algorithm = text "argon2id";
  version = some 19;
  params = (text "m", some 19456) ∷ (text "t", some 2) ∷ (text "p", some 1) ∷ [];
  salt_length = some 16;
  output_length = some 32;
})

abbrev with_carol : Db
with_carol =
    (value (created 0, db)
      (create_self_registered_user parse (text "carol@example.com") (text "Carol") (text "h") 5
        db)).1

registration_example : Registered db (created 3, with_carol)
unfolding create_self_registered_user canonicalize_email normalize_display_name
    password_hash_is_production_grade insert_user exists text_beq chains
registration_example =
    create_self_registered_user-Registered parse (text "carol@example.com") (text "Carol")
      (text "h") 5 db with_carol (created 3) refl

administered : HasAdmin db
unfolding count
administered = record { keyed = ground arith; administered = omega arith }

abbrev without_bob : Db
without_bob = value db (set_user_status 2 disabled 5 db)

status_example : HasAdmin without_bob
unfolding set_user_status find count update chains
status_example = set_user_status-HasAdmin 2 disabled 5 db without_bob administered refl

last_administrator_stays : set_user_status 1 disabled 5 db ≡ err last_administrator
unfolding set_user_status find count update chains
last_administrator_stays = refl

abbrev with_admin_bob : Db
with_admin_bob = value db (set_user_role 2 admin 5 db)

role_example : HasAdmin with_admin_bob
unfolding set_user_role find count update chains
role_example = set_user_role-HasAdmin 2 admin 5 db with_admin_bob administered refl

revocation_example : IsRevoked 2 db with_admin_bob
unfolding set_user_role find count update chains
revocation_example = CredentialChange-IsRevoked parse 2 5 db with_admin_bob (new_role admin refl)

abbrev hash_of : Text → Text
hash_of t = repeat 51 64

abbrev signed_in : Db
signed_in = (value (text "", db) (issue_session_for_user hash_of (text "token") 2 10 5 db)).1

issue_example :
    (text "token" ≡ text "token")
    × IsIssued (hash_of (text "token")) 2 5 (5 + 10 * 1000) db signed_in
unfolding issue_session_for_user delete exists count find text_beq chains
issue_example =
    issue_session-IsIssued hash_of (text "token") 2 10 5 db signed_in (text "token") (omega arith)
      refl

renewal_example :
    ((auth_context_hash_with_renewal hash_1 10 5 db).0.0 ≡ auth_context_hash hash_1 5 db)
    × ((is_some (find (is_live hash_2 7) db.sessions) ≡ false)
        ⊎ (is_some
              (find (is_live hash_2 7) (auth_context_hash_with_renewal hash_1 10 5 db).1.sessions)
            ≡ true))
    × (((auth_context_hash_with_renewal hash_1 10 5 db).0.0 ≡ none)
        ⊎ ((lasts_until 10 5 (auth_context_hash_with_renewal hash_1 10 5 db).0.1 ≤ 5004)
            ⊎ (is_some (
                  find
                    (is_live hash_1 5004)
                    (auth_context_hash_with_renewal hash_1 10 5 db).1.sessions)
                ≡ true)))
renewal_example = renewal_authenticates hash_1 10 5 db hash_2 7 5004 (omega arith) (omega arith)
