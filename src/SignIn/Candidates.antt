-- ===== src/SignIn/Candidates.antt =====
-- Who is signed in: an active account whose password was given.
use blackglass_server.Base.{
  ℕ, ◌≡◌, Bool, true, Option, some, Text, ◌==◌, nat_eq, text_eq, arith, Option-cases, inl, inr,
}
use blackglass_server.Table.{find}
use blackglass_server.Database.{Db, User, is_active}
use blackglass_server.Limits.Source.{Entries, admit_signin}
use blackglass_server.SignIn.{
  UserCredential, credential, signin_candidate, Capacity, granted, waiters_full, queue_timed_out,
  memory_reached, signed_in, canonical_email, password_or_empty, check_password,
  authenticate_credentials,
}

-- The account behind a sign-in.
pub record IsGenuine (verify : Text → Text → Bool) (email password : Option Text) (db : Db)
    (u : UserCredential) : Type 0 where
  pub canonical : Text
  pub address : canonical_email email ≡ some canonical
  pub row : User
  pub found : find (λ (x : User). x.email_canonical == canonical) db.users ≡ some row
  pub same : u ≡ credential row
  pub is_open : is_active row ≡ true
  pub verified : verify (password_or_empty password) row.password_hash ≡ true

module _ (verify : Text → Text → Bool) (dummy : Text) where
  checks :
      (source later : ℕ) (email password : Option Text) (db : Db) (entries entries' : Entries)
      (u : UserCredential)
      → check_password verify dummy source later email password db entries ≡ (signed_in u, entries')
      → IsGenuine verify email password db u
  unfolding check_password signin_candidate
  checks source later email password db entries entries' u e =
      elim (Option-cases (canonical_email email)) [
        | inl absent ↦ absurd (ground (arith, absent, e))
        | inr (c, there) ↦
            elim (Option-cases (find (λ (x : User). x.email_canonical == c) db.users)) [
              | inl missing ↦ absurd (ground (arith, there, missing, e))
              | inr (x, found) ↦ record {
                canonical = c;
                address = there;
                row = x;
                found = found;
                same = ground (arith, there, found, e);
                is_open = ground (arith, there, found, e);
                verified = ground (arith, there, found, e);
              }
            ]
      ]

  -- Whoever is signed in has an active account under the canonical form of the address given, and the
  -- password given verifies against the hash of that account.
  pub authenticate_credentials-IsGenuine :
      (source now later : ℕ) (capacity : Capacity) (email password : Option Text) (db : Db)
      (entries entries' : Entries) (u : UserCredential)
      → authenticate_credentials verify dummy source now later capacity email password db entries
        ≡ (signed_in u, entries')
      → IsGenuine verify email password db u
  unfolding authenticate_credentials
  authenticate_credentials-IsGenuine source now later granted email password db entries entries' u
        e =
      checks source later email password db (admit_signin source now entries).1 entries' u
        (ground (arith, e))
  authenticate_credentials-IsGenuine source now later waiters_full email password db entries
        entries' u e =
      absurd (ground (arith, e))
  authenticate_credentials-IsGenuine source now later queue_timed_out email password db entries
        entries' u e =
      absurd (ground (arith, e))
  authenticate_credentials-IsGenuine source now later memory_reached email password db entries
        entries' u e =
      absurd (ground (arith, e))
