-- ===== src/Auth.antt =====
-- apps/server-rust/src/auth.rs: canonical email addresses, display names, and the limits on a
-- password hash. Argon2, SHA-256 and the random generator are other crates': what parses a PHC
-- string is the parameter `parse` of `accepted_password_hash`.
pub mod Trimming
pub mod Emails
use blackglass_server.Base.{
  ℕ, ◌+◌, ◌-◌, Bool, true, false, not, ◌&&◌, ◌||◌, Option, none, some, List, [], ◌∷◌, ltb, leb,
  ◌==◌, nat_eq, text_eq, if◌then◌else◌, Text, text, length, all, within, Outcome, ok, err, Error,
  ◌>>=◌, ◌>>◌, ensure, bad_email, bad_name, bad_password,
}

abbrev pub max_email_bytes : ℕ
max_email_bytes = 254

abbrev pub max_display_name_bytes : ℕ
max_display_name_bytes = 128

-- `char::is_ascii_whitespace`: space, tab, line feed, form feed, carriage return.
abbrev pub is_ascii_whitespace : ℕ → Bool
is_ascii_whitespace b = b == 32 || b == 9 || b == 10 || b == 12 || b == 13

pub trim_start : Text → Text
trim_start [] = []
trim_start (b ∷ s) = let rest = trim_start s in if is_ascii_whitespace b then rest else b ∷ s

pub trim_end : Text → Text
trim_end [] = []
trim_end (b ∷ s) =
    let rest = trim_end s in if is_ascii_whitespace b && length rest == 0 then [] else b ∷ rest

-- `value.trim_matches(|c| c.is_ascii_whitespace())`
unfoldable pub trim_ascii : Text → Text
unfolding trim_start trim_end
trim_ascii s = trim_end (trim_start s)

abbrev pub is_printable : ℕ → Bool
is_printable b = within b'!' b'~' b

abbrev pub lower : ℕ → ℕ
lower b = if within b'A' b'Z' b then b + 32 else b

unfoldable pub to_ascii_lowercase : Text → Text
to_ascii_lowercase [] = []
to_ascii_lowercase (b ∷ s) = lower b ∷ to_ascii_lowercase s

-- `match_indices('@')`: the offsets at which the separator stands.
unfoldable pub separators : ℕ → Text → List ℕ
separators i [] = []
separators i (b ∷ s) = let rest = separators (i + 1) s in if b == b'@' then i ∷ rest else rest

-- `Some((separator, _))` with neither an edge nor a second separator.
abbrev one_separator : ℕ → List ℕ → Bool
one_separator len [] = false
one_separator len (i ∷ more) = not (i == 0 || i + 1 == len || not (length more == 0))

pub record CanonicalEmail : Type 0 where
  pub display : Text
  pub canonical : Text

unfoldable pub canonicalize_email : Text → Outcome CanonicalEmail
unfolding trim_ascii to_ascii_lowercase separators
canonicalize_email value = do
  let display = trim_ascii value
  ensure (not (length display == 0 || ltb max_email_bytes (length display))) bad_email
  ensure (all is_printable display) bad_email
  ensure (one_separator (length display) (separators 0 display)) bad_email
  ok (record { display = display; canonical = to_ascii_lowercase display })

-- `chars().any(char::is_control)`: those below 0x20 and DEL are bytes,
-- those from 0x80 to 0x9F follow the byte 0xC2 in UTF-8.
unfoldable pub any_control : Text → Bool
any_control [] = false
any_control (b ∷ []) = ltb b 32 || b == 127
any_control (b ∷ c ∷ s) =
    ltb b 32 || b == 127 || (b == 0xc2 && within 0x80 0x9f c) || any_control (c ∷ s)

unfoldable pub normalize_display_name : Text → Outcome Text
unfolding trim_ascii any_control
normalize_display_name value = do
  let name = trim_ascii value
  ensure (not (length name == 0 || ltb max_display_name_bytes (length name))) bad_name
  ensure (not (any_control name)) bad_name
  ok name

unfoldable pub validate_self_registered_password : Text → Outcome (Unit {0})
validate_self_registered_password value = ensure (within 12 256 (length value)) bad_password

-- What the PHC parser finds in an encoded hash: the parameters in order of appearance, each with
-- its value where that is a decimal, and the lengths of the salt text and of the output.
pub record PasswordHash : Type 0 where
  pub algorithm : Text
  pub version : Option ℕ
  pub params : List (Text × Option ℕ)
  pub salt_length : Option ℕ
  pub output_length : Option ℕ

unfoldable pub get_decimal : Text → List (Text × Option ℕ) → Option ℕ
get_decimal name [] = none
get_decimal name ((key, value) ∷ rest) =
    let later = get_decimal name rest in if key == name then value else later

-- `sort_unstable(names) == ["m", "p", "t"]`
abbrev sorted_names : List (Text × Option ℕ) → Bool
sorted_names ((a, _) ∷ (b, _) ∷ (c, _) ∷ []) =
    (let m = text "m" in
      let p = text "p" in
      let t = text "t" in
      (a == m && b == p && c == t)
      || (a == m && b == t && c == p)
      || (a == p && b == m && c == t)
      || (a == p && b == t && c == m)
      || (a == t && b == m && c == p)
      || (a == t && b == p && c == m))
sorted_names _ = false

abbrev is_version_19 : Option ℕ → Bool
is_version_19 none = false
is_version_19 (some v) = v == 19

abbrev decimal_within : ℕ → ℕ → Option ℕ → Bool
decimal_within lo hi none = false
decimal_within lo hi (some n) = within lo hi n

module _ (parse : Text → Option PasswordHash) where
  -- A missing decimal, salt or output ends the function by `?`, with the same `None`.
  unfoldable pub accepted_password_hash : Text → Option PasswordHash
  unfolding get_decimal
  accepted_password_hash encoded = if ltb 512 (length encoded) then none else elim (parse encoded) [
    | none ↦ none
    | some hash ↦
        if hash.algorithm == text "argon2id"
          && is_version_19 hash.version
          && sorted_names hash.params
          && decimal_within 19456 65536 (get_decimal (text "m") hash.params)
          && decimal_within 2 5 (get_decimal (text "t") hash.params)
          && decimal_within 1 4 (get_decimal (text "p") hash.params)
          && decimal_within 8 64 hash.salt_length
          && decimal_within 16 64 hash.output_length
        then some hash
        else none
  ]

  unfoldable pub password_hash_is_production_grade : Text → Bool
  unfolding accepted_password_hash
  password_hash_is_production_grade encoded = elim (accepted_password_hash encoded) [
    | none ↦ false
    | some _ ↦ true
  ]
