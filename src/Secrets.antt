-- ===== src/Secrets.antt =====
-- internal/domain/model/secret.go: the secrets of a test suite. A byte slice is the list of its
-- bytes. The regular expressions are written out as recursions over the text.
pub mod Template
mod Tests
mod Ownership
mod Reading
mod Storing
pub mod Service
pub mod Resolving
mod Scanning
pub mod Matching
use vuhive_cloud.Common.{
  ℕ, ◌≡◌, Bool, true, false, not, ◌&&◌, ◌||◌, Option, none, some, List, [], ◌∷◌, Text, trim_space,
  is_empty, is_blank, leb, ◌==◌, if◌then◌else◌, Result, ok, err, reject_if, ◌>>◌, validation,
  invalid_secret_key,
}
use vuhive_cloud.Common.Time.{Time}

abbrev pub is_upper : ℕ → Bool
is_upper c = leb 0x41 c && leb c 0x5a

-- `[A-Z0-9_]`.
abbrev pub is_key_char : ℕ → Bool
is_key_char c = is_upper c || ((leb 0x30 c && leb c 0x39) || c == 0x5f)

unfoldable pub all_key_chars : Text → Bool
all_key_chars [] = true
all_key_chars (c ∷ t) = is_key_char c && all_key_chars t

-- `^[A-Z][A-Z0-9_]*$`.
unfoldable pub matches_key : Text → Bool
unfolding all_key_chars
matches_key [] = false
matches_key (c ∷ t) = is_upper c && all_key_chars t

unfoldable pub validate_secret_key : Text → Result (Unit {0})
validate_secret_key key =
    reject_if (is_blank key || not (matches_key (trim_space key))) invalid_secret_key

pub record Secret : Type 0 where
  pub id : Text
  pub suite_id : Text
  pub key : Text
  pub encrypted_value : List ℕ
  pub created_at : Time
  pub updated_at : Time

abbrev pub no_bytes : List ℕ → Bool
no_bytes bytes = is_empty bytes

unfoldable pub new_secret_with_id : Text → Text → Text → List ℕ → Time → Time → Result Secret
new_secret_with_id id suite_id key encrypted created updated =
    reject_if (is_blank suite_id) validation
    >> (validate_secret_key (trim_space key)
        >> (reject_if (no_bytes encrypted) validation
            >> ok (record {
              id = id;
              suite_id = trim_space suite_id;
              key = trim_space key;
              encrypted_value = encrypted;
              created_at = created;
              updated_at = updated;
            })))

-- `uuid` is what `uuid.NewString` returns.
unfoldable pub new_secret : Text → Time → Text → Text → List ℕ → Result Secret
new_secret uuid now suite_id key encrypted =
    reject_if (is_blank suite_id) validation
    >> (validate_secret_key (trim_space key)
        >> (reject_if (no_bytes encrypted) validation
            >> ok (record {
              id = uuid;
              suite_id = trim_space suite_id;
              key = trim_space key;
              encrypted_value = encrypted;
              created_at = now;
              updated_at = now;
            })))

unfoldable pub update_value : Time → List ℕ → Secret → Result Secret
update_value now encrypted s =
    reject_if (no_bytes encrypted) validation
    >> ok (record s { encrypted_value = encrypted; updated_at = now })
