-- ===== src/Base/Errors.antt =====
-- `anyhow::Result`: the errors that the modelled operations raise, and their chains.
use mathlib.Core.Path.{◌≡◌, refl, subst}
use mathlib.Core.Bool.{Bool, true, false}
use mathlib.Core.Option.{Option, none, some}

-- One constructor for each `bail!` or typed error; `constraint` is SQLite's refusal of a row that
-- breaks a key or a foreign key, `no_rows` that of a query that must find a row.
pub data Error : Type 0 where
  bad_email bad_name weak_password_hash bad_password : Error
  user_limit_reached user_sequence_exhausted user_not_found user_unavailable : Error
  administrator_authorization_changed bad_status bad_role last_administrator : Error
  session_limit_reached user_session_limit_reached : Error
  mutation_unauthorized vault_limit_reached vault_unavailable : Error
  sharing_vault_unavailable sharing_user_unavailable : Error
  collaborator_limit_reached membership_capacity_reached membership_sequence_exhausted : Error
  retired_limit_reached storage_quota_exceeded conditional_write_conflict : Error
  bad_write_boundary bad_metadata uid_out_of_range staged_size_changed : Error
  bad_chunk_bounds no_content_metadata chunk_exceeds_size bad_content_storage : Error
  notice_too_large constraint no_rows : Error

pub data Outcome {ℓ} (A : Type ℓ) : Type ℓ where
  ok : A → Outcome A
  err : Error → Outcome A

infixl 5 ◌>>=◌ ◌>>◌
unfoldable pub ◌>>=◌ {ℓ κ} : {A : Type ℓ} {B : Type κ} → Outcome A → (A → Outcome B) → Outcome B
ok a >>= f = f a
err e >>= f = err e

abbrev pub ◌>>◌ {ℓ} : {B : Type ℓ} → Outcome (Unit {0}) → Outcome B → Outcome B
m >> k = m >>= λ _. k

-- `if !test { bail!(e) }`
unfoldable pub ensure : Bool → Error → Outcome (Unit {0})
ensure true e = ok tt
ensure false e = err e

-- `.context(e)?`, `.ok_or(e)?`
unfoldable pub require {ℓ} : {A : Type ℓ} → Option A → Error → Outcome A
require none e = err e
require (some a) e = ok a

-- `if test { return early }` before the rest.
unfoldable pub branch {ℓ} : {A : Type ℓ} → Bool → Outcome A → Outcome A → Outcome A
branch true early rest = early
branch false early rest = rest

-- On an `unfolding` line: a proof or a test that runs through chains.
unfoldable pub chains : Unit {0}
unfolding ◌>>=◌ ensure require branch
chains = tt

-- `P` holds of the result, where there is one. A record, so that a goal determines the call.
pub record OnOk {ℓ κ} {A : Type ℓ} (P : A → Type κ) (r : Outcome A) : Type (ℓ ⊔ κ) where
  pub at : (a : A) → r ≡ ok a → P a

module _ {ℓ κ} {A : Type ℓ} (P : A → Type κ) where
  pub OnOk-ok : (a : A) → P a → OnOk P (ok a)
  OnOk-ok a h = record { at = λ b e. subst P (ok_injective e) h }
    where
      value : Outcome A → A
      value (ok b) = b
      value (err _) = a

      ok_injective : {b : A} → ok a ≡ ok b → a ≡ b
      ok_injective e = λ i. value (e i)

  -- A guard hands its test on to what follows.
  pub OnOk-ensure :
      (b : Bool) (e : Error) (m : Outcome A) → (b ≡ true → OnOk P m) → OnOk P (ensure b e >> m)
  unfolding ◌>>=◌ ensure
  OnOk-ensure true e m h = h refl
  OnOk-ensure false e m h = record { at = λ a q. cc }

  pub OnOk-bind {μ} :
      {B : Type μ} (m : Outcome B) (f : B → Outcome A)
      → ((b : B) → m ≡ ok b → OnOk P (f b))
      → OnOk P (m >>= f)
  unfolding ◌>>=◌
  OnOk-bind (ok b) f h = h b refl
  OnOk-bind (err e) f h = record { at = λ a q. cc }

  pub OnOk-require {μ} :
      {B : Type μ} (o : Option B) (e : Error) (f : B → Outcome A)
      → ((b : B) → o ≡ some b → OnOk P (f b))
      → OnOk P (require o e >>= f)
  unfolding ◌>>=◌ require
  OnOk-require (some b) e f h = h b refl
  OnOk-require none e f h = record { at = λ a q. cc }

  pub OnOk-branch :
      (b : Bool) (m n : Outcome A)
      → (b ≡ true → OnOk P m)
      → (b ≡ false → OnOk P n)
      → OnOk P (branch b m n)
  unfolding branch
  OnOk-branch true m n h k = h refl
  OnOk-branch false m n h k = k refl
