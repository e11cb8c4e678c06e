-- ===== src/Artifact.antt =====
-- internal/domain/model/artifact.go: the Artifact entity, a compiled test binary. A method that
-- mutates `*Artifact` returns the new record with its error.
mod Lifecycle
mod Tests
use vuhive_cloud.Common.{
  ℕ, ◌≡◌, Bool, true, false, ◌||◌, ◌&&◌, not, Option, none, some, List, [], ◌∷◌, Text, codes,
  text_eq, trim_space, is_blank, if◌then◌else◌, leb, ◌==◌, length, Error, Result, ok, err,
  reject_if, ◌>>=◌, ◌>>◌, validation, invalid_platform, terminal_state, invalid_state_transition,
  empty_s3_key, invalid_checksum,
}
use vuhive_cloud.Common.Time.{Time}

-- `type Platform string`: the two constants, and any other text.
pub data Platform : Type 0 where
  linux_amd64 linux_arm64 : Platform
  unsupported : Text → Platform

abbrev pub platform_valid : Platform → Bool
platform_valid linux_amd64 = true
platform_valid linux_arm64 = true
platform_valid (unsupported s) = false

abbrev pub to_platform : Text → Platform
to_platform s =
    if text_eq s (codes "linux/amd64")
    then linux_amd64
    else if text_eq s (codes "linux/arm64")
    then linux_arm64
    else unsupported s

unfoldable pub parse_platform : Text → Result Platform
parse_platform s =
    let p = to_platform (trim_space s) in if platform_valid p then ok p else err invalid_platform

-- `type ArtifactStatus string`.
pub data ArtifactStatus : Type 0 where
  pending building ready failed cancelled : ArtifactStatus
  unrecognized : Text → ArtifactStatus

abbrev pub status_valid : ArtifactStatus → Bool
status_valid pending = true
status_valid building = true
status_valid ready = true
status_valid failed = true
status_valid cancelled = true
status_valid (unrecognized s) = false

pub record Artifact : Type 0 where
  pub id : Text
  pub suite_id : Text
  pub platform : Platform
  pub description : Text
  pub s3_binary_key : Text
  pub sha256_checksum : Text
  pub build_logs_s3_key : Text
  pub status : ArtifactStatus
  pub error_message : Text
  pub created_at : Time

-- The variadic `description ...string`.
abbrev first_description : List Text → Text
first_description [] = []
first_description (d ∷ rest) = trim_space d

unfoldable pub new_artifact : Text → Time → Text → Platform → List Text → Result Artifact
new_artifact uuid now suite_id platform description = do
  reject_if (is_blank suite_id) validation
  reject_if (not (platform_valid platform)) invalid_platform
  ok (record {
    id = uuid;
    suite_id = trim_space suite_id;
    platform = platform;
    description = first_description description;
    s3_binary_key = [];
    sha256_checksum = [];
    build_logs_s3_key = [];
    status = pending;
    error_message = [];
    created_at = now;
  })

-- `NewArtifactWithID` takes the fields one by one: here they come as a record.
unfoldable pub new_artifact_with_id : Artifact → Result Artifact
new_artifact_with_id row = do
  reject_if (is_blank row.suite_id) validation
  reject_if (not (platform_valid row.platform)) invalid_platform
  reject_if (not (status_valid row.status)) invalid_state_transition
  ok (record row { suite_id = trim_space row.suite_id; description = trim_space row.description })

unfoldable pub set_description : Text → Artifact → Artifact
set_description d a = record a { description = trim_space d }

-- `a.status == READY || a.status == FAILED || a.status == CANCELLED`.
abbrev pub is_settled : ArtifactStatus → Bool
is_settled ready = true
is_settled failed = true
is_settled cancelled = true
is_settled _ = false

abbrev pub is_pending : ArtifactStatus → Bool
is_pending pending = true
is_pending _ = false

abbrev pub is_building : ArtifactStatus → Bool
is_building building = true
is_building _ = false

-- `a.status == FAILED || a.status == CANCELLED`.
abbrev pub is_retryable : ArtifactStatus → Bool
is_retryable failed = true
is_retryable cancelled = true
is_retryable _ = false

unfoldable pub is_hex : ℕ → Bool
is_hex c = (leb b'0' c && leb c b'9') || ((leb b'a' c && leb c b'f') || (leb b'A' c && leb c b'F'))

unfoldable pub all_hex : Text → Bool
all_hex [] = true
all_hex (c ∷ s) = is_hex c && all_hex s

-- The source counts bytes: where a code point takes several of them, it is no hexadecimal digit.
unfoldable pub is_valid_sha256 : Text → Bool
unfolding all_hex is_hex
is_valid_sha256 s = length s == 64 && all_hex s

unfoldable pub mark_building : Artifact → Artifact × Option Error
mark_building a =
    if is_settled a.status
    then (a, some terminal_state)
    else if is_pending a.status
    then (record a { status = building }, none)
    else (a, some invalid_state_transition)

unfoldable pub mark_ready : Text → Text → Artifact → Artifact × Option Error
mark_ready key checksum a =
    if is_settled a.status
    then (a, some terminal_state)
    else if not (is_building a.status)
    then (a, some invalid_state_transition)
    else if is_blank key
    then (a, some empty_s3_key)
    else if not (is_valid_sha256 (trim_space checksum))
    then (a, some invalid_checksum)
    else (
      record a {
        s3_binary_key = trim_space key;
        sha256_checksum = trim_space checksum;
        status = ready;
      },
      none,
    )

unfoldable pub mark_failed : Text → Text → Artifact → Artifact × Option Error
mark_failed message logs_key a =
    if is_settled a.status
    then (a, some terminal_state)
    else (record a { error_message = message; build_logs_s3_key = logs_key; status = failed }, none)

unfoldable pub cancel : Text → Artifact → Artifact × Option Error
cancel reason a = if is_settled a.status then (a, some terminal_state) else (
  record a {
    error_message = if is_blank reason then codes "manual cancellation" else trim_space reason;
    status = cancelled;
  },
  none,
)

unfoldable pub retry_build : Artifact → Artifact × Option Error
retry_build a =
    if is_retryable a.status
    then (record a { status = pending; error_message = []; build_logs_s3_key = [] }, none)
    else (a, some invalid_state_transition)

-- A call of a method that changes the artifact.
pub data Call : Type 0 where
  describes : Text → Call
  builds retries : Call
  readies fails : Text → Text → Call
  cancels : Text → Call

unfoldable pub step : Call → Artifact → Artifact × Option Error
unfolding set_description mark_building mark_ready mark_failed cancel retry_build
step (describes d) a = (set_description d a, none)
step builds a = mark_building a
step retries a = retry_build a
step (readies key checksum) a = mark_ready key checksum a
step (fails message logs_key) a = mark_failed message logs_key a
step (cancels reason) a = cancel reason a

unfoldable pub run : List Call → Artifact → Artifact
run [] a = a
run (c ∷ cs) a = run cs (step c a).0
