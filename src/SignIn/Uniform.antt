-- ===== src/SignIn/Uniform.antt =====
-- A failed sign-in says nothing about the accounts.
use blackglass_server.Base.{
  ℕ, ◌≡◌, ◌≢◌, refl, Bool, Option, none, some, [], Text, arith, Option-cases, Bool-cases, inl, inr,
}
use blackglass_server.Table.{find}
use blackglass_server.Database.{Db}
use blackglass_server.Limits.Source.{Entries, admit_signin, refund_successful_signin}
use blackglass_server.SignIn.{
  UserCredential, signin_candidate, Capacity, granted, waiters_full, queue_timed_out,
  memory_reached, SignIn, signed_in, invalid_email_or_password, canonical_email, check_password,
  authenticate_credentials,
}

module _ (verify : Text → Text → Bool) (dummy : Text) where
  refused_alike :
      (entries refunded : Entries) (o : Option UserCredential)
      → ((u : UserCredential)
          → (elim o as (λ _. SignIn × Entries) [
            | none ↦ (invalid_email_or_password, entries)
            | some x ↦ (signed_in x, refunded)
          ]).0
            ≢ signed_in u)
      → (elim o as (λ _. SignIn × Entries) [
        | none ↦ (invalid_email_or_password, entries)
        | some x ↦ (signed_in x, refunded)
      ])
        ≡ (invalid_email_or_password, entries)
  refused_alike entries refunded none h = refl
  refused_alike entries refunded (some x) h = absurd (h x refl)

  nobody :
      (source later : ℕ) (email password : Option Text) (db : Db) (entries : Entries)
      → check_password verify dummy source later email password (record db { users = [] }) entries
        ≡ (invalid_email_or_password, entries)
  unfolding check_password signin_candidate find
  nobody source later email password db entries = elim (Option-cases (canonical_email email)) [
    | inl absent ↦ ground (arith, absent)
    | inr (c, there) ↦ ground (arith, there)
  ]

  -- A sign-in that signs nobody in is answered, and counted against its source, as it would be without
  -- any account: the answer tells an unknown address, a disabled account and a wrong password not apart.
  pub failures_look_alike :
      (source now later : ℕ) (capacity : Capacity) (email password : Option Text) (db : Db)
      (entries : Entries)
      → ((u : UserCredential)
          → (authenticate_credentials verify dummy source now later capacity email password db
              entries).0
            ≢ signed_in u)
      → authenticate_credentials verify dummy source now later capacity email password db entries
        ≡ authenticate_credentials verify dummy source now later capacity email password
            (record db { users = [] })
            entries
  unfolding authenticate_credentials
  failures_look_alike source now later waiters_full email password db entries h = refl
  failures_look_alike source now later queue_timed_out email password db entries h = refl
  failures_look_alike source now later memory_reached email password db entries h = refl
  failures_look_alike source now later granted email password db entries h =
      elim (Bool-cases (admit_signin source now entries).0) [
        | inr refused ↦ ground (arith, refused)
        | inl admitted ↦
            let counted = (admit_signin source now entries).1 in
            rw (admitted, nobody source later email password db counted)
              (unfold check_password in
                refused_alike counted (refund_successful_signin source later counted) _
                  (unfold check_password in rw admitted at h))
      ]
