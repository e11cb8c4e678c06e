-- ===== src/Artifact/Lifecycle.antt =====
-- internal/domain/model/artifact.go: the build lifecycle.
use vuhive_cloud.Common.{
  length, ℕ, ◌≤◌, ◌⊎◌, All, Bool, none, ◌≡◌, refl, ◌∙◌, subst, ◌↔◌, true, false, List, [], ◌∷◌,
  Text, trim_space, is_blank, trim_space_idem, ok, arith, codes,
}
use vuhive_cloud.Common.Time.{Time}
use vuhive_cloud.Artifact.{
  ArtifactStatus, pending, building, ready, failed, cancelled, status_valid, platform_valid,
  Platform, Artifact, Call, builds, retries, readies, fails, cancels, describes, step, run,
  new_artifact, new_artifact_with_id, is_valid_sha256, is_hex, all_hex,
}

-- A digit from 0 to 9, or a letter from A to F or from a to f.
abbrev pub IsHexDigit : ℕ → Type 0
IsHexDigit c = ((0x30 ≤ c) × (c ≤ 0x39)) ⊎ (((0x41 ≤ c) × (c ≤ 0x46)) ⊎ ((0x61 ≤ c) × (c ≤ 0x66)))

-- What each status promises of the artifact.
pub record IsConsistent (a : Artifact) : Type 0 where
  pub known : status_valid a.status ≡ true
  pub supported : platform_valid a.platform ≡ true
  pub owned : is_blank a.suite_id ≡ false
  pub trimmed : trim_space a.suite_id ≡ a.suite_id
  pub described : trim_space a.description ≡ a.description
  pub ready_stored : a.status ≡ ready → is_blank a.s3_binary_key ≡ false
  pub ready_length : a.status ≡ ready → length a.sha256_checksum ≡ 64
  pub ready_digits : a.status ≡ ready → All IsHexDigit a.sha256_checksum
  pub ready_checked : a.status ≡ ready → is_valid_sha256 a.sha256_checksum ≡ true
  pub pending_clean : a.status ≡ pending → (a.error_message ≡ []) × (a.build_logs_s3_key ≡ [])
  pub cancelled_reason : a.status ≡ cancelled → is_blank a.error_message ≡ false

default_reason_ink : is_blank (codes "manual cancellation") ≡ false
unfolding trim_space
default_reason_ink = refl

valid_length : (s : Text) → is_valid_sha256 s ≡ true → length s ≡ 64
unfolding is_valid_sha256
valid_length s h = ground arith

hex_digit : (c : ℕ) → is_hex c ≡ true → IsHexDigit c
unfolding is_hex
hex_digit c h = ground arith

hex_digits : (s : Text) → all_hex s ≡ true → All IsHexDigit s
unfolding all_hex
hex_digits [] h = tt
hex_digits (c ∷ s) h = (
  let head : is_hex c ≡ true = ground arith in hex_digit c head,
  let tail : all_hex s ≡ true = ground arith in hex_digits s tail,
)

valid_digits : (s : Text) → is_valid_sha256 s ≡ true → All IsHexDigit s
unfolding is_valid_sha256
valid_digits s h = let hex : all_hex s ≡ true = ground arith in hex_digits s hex

step-IsConsistent : (c : Call) (a : Artifact) → IsConsistent a → IsConsistent (step c a).0
unfolding step
step-IsConsistent (describes d) a v = ground (arith, trim_space_idem d)
step-IsConsistent (readies key checksum) a v =
    let sized = valid_length (trim_space checksum) in
    let digits = valid_digits (trim_space checksum) in ground (arith, trim_space_idem key)
step-IsConsistent (cancels reason) a v = ground (arith, trim_space_idem reason, default_reason_ink)
step-IsConsistent _ a v = ground arith

run-IsConsistent : (cs : List Call) (a : Artifact) → IsConsistent a → IsConsistent (run cs a)
unfolding run
run-IsConsistent [] a v = v
run-IsConsistent (c ∷ cs) a v = run-IsConsistent cs (step c a).0 (step-IsConsistent c a v)

trim_nil : trim_space [] ≡ []
unfolding trim_space
trim_nil = refl

new_artifact-IsConsistent :
    (uuid : Text) (now : Time) (suite_id : Text) (platform : Platform) (description : List Text)
    (a : Artifact)
    → new_artifact uuid now suite_id platform description ≡ ok a
    → IsConsistent a
unfolding new_artifact
new_artifact-IsConsistent uuid now suite_id platform [] a h =
    ground (arith, trim_space_idem suite_id, trim_nil)
new_artifact-IsConsistent uuid now suite_id platform (d ∷ rest) a h =
    ground (arith, trim_space_idem suite_id, trim_space_idem d)

-- An artifact that `NewArtifact` made is consistent after any sequence of method calls, refused ones
-- among them: one that is READY has a storage key and a checksum of 64 hexadecimal digits, one that
-- is PENDING, also after a retry, carries no error and no build log, and one that is CANCELLED has a
-- reason.
pub created_artifact-IsConsistent :
    (uuid : Text) (now : Time) (suite_id : Text) (platform : Platform) (description : List Text)
    (a : Artifact) (cs : List Call)
    → new_artifact uuid now suite_id platform description ≡ ok a
    → IsConsistent (run cs a)
created_artifact-IsConsistent uuid now suite_id platform description a cs h =
    run-IsConsistent cs a (new_artifact-IsConsistent uuid now suite_id platform description a h)

-- An artifact that `NewArtifact` made, after any sequence of method calls, is rebuilt by
-- `NewArtifactWithID` from its own fields without a change.
pub reload_artifact :
    (uuid : Text) (now : Time) (suite_id : Text) (platform : Platform) (description : List Text)
    (a : Artifact) (cs : List Call)
    → new_artifact uuid now suite_id platform description ≡ ok a
    → new_artifact_with_id (run cs a) ≡ ok (run cs a)
unfolding new_artifact_with_id
reload_artifact uuid now suite_id platform description a cs h =
    let v = created_artifact-IsConsistent uuid now suite_id platform description a cs h in
    rw (v.owned, v.supported, v.known, v.trimmed, v.described)

pub data IsActive : ArtifactStatus → Type 0 where
  waits : IsActive pending
  compiles : IsActive building

pub data IsRetryable : ArtifactStatus → Type 0 where
  broke : IsRetryable failed
  stopped : IsRetryable cancelled

-- The build lifecycle: READY has no way out.
infix 40 ◌⟶◌
pub data ◌⟶◌ : ArtifactStatus → ArtifactStatus → Type 0 where
  begin : pending ⟶ building
  succeed : building ⟶ ready
  break : {s : ArtifactStatus} → IsActive s → s ⟶ failed
  stop : {s : ArtifactStatus} → IsActive s → s ⟶ cancelled
  again : {s : ArtifactStatus} → IsRetryable s → s ⟶ pending

ruleset edges = (begin, succeed, break, stop, again, waits, compiles, broke, stopped)

-- The calls of the lifecycle, as against the setter.
abbrev pub is_transition : Call → Bool
is_transition (describes d) = false
is_transition _ = true

step-⟶ :
    (c : Call) (a : Artifact)
    → status_valid a.status ≡ true
    → is_transition c ≡ true
    → (step c a).1 ≡ none
    → a.status ⟶ (step c a).0.status
unfolding step
step-⟶ c a h t e = grind (arith, edges)

-- A call of the lifecycle that succeeds on an artifact and leaves it in status `t`.
abbrev pub Moves : Artifact → ArtifactStatus → Type 0
Moves a t =
    (c : Call) × (is_transition c ≡ true) × ((step c a).1 ≡ none) × ((step c a).0.status ≡ t)

abbrev some_key : Text
some_key = codes "key"

abbrev pub some_checksum : Text
some_checksum = codes "0123456789abcdefABCDEF00000000000000000000000000000000000000000f"

some_key_ink : is_blank some_key ≡ false
unfolding trim_space
some_key_ink = refl

some_checksum_valid : is_valid_sha256 (trim_space some_checksum) ≡ true
unfolding is_valid_sha256 trim_space
some_checksum_valid = refl

⟶-call : {s t : ArtifactStatus} → s ⟶ t → (a : Artifact) → a.status ≡ s → Moves a t
unfolding step
⟶-call begin a e = (builds, refl, ground arith, ground arith)
⟶-call succeed a e = (
  readies some_key some_checksum,
  refl,
  ground (arith, some_key_ink, some_checksum_valid),
  ground (arith, some_key_ink, some_checksum_valid),
)
⟶-call (break waits) a e = (fails [] [], refl, ground arith, ground arith)
⟶-call (break compiles) a e = (fails [] [], refl, ground arith, ground arith)
⟶-call (stop waits) a e = (cancels [], refl, ground arith, ground arith)
⟶-call (stop compiles) a e = (cancels [], refl, ground arith, ground arith)
⟶-call (again broke) a e = (retries, refl, ground arith, ground arith)
⟶-call (again stopped) a e = (retries, refl, ground arith, ground arith)

-- The methods realise the build lifecycle exactly: from an artifact of a known status a call of the
-- lifecycle succeeds and ends in a status just when the graph has that edge.
pub build_lifecycle_exact :
    (a : Artifact) (t : ArtifactStatus) → status_valid a.status ≡ true → (a.status ⟶ t) ↔ Moves a t
build_lifecycle_exact a t h = (
  λ e. ⟶-call e a refl,
  λ (c, transits, succeeds, e). subst (λ u. a.status ⟶ u) e (step-⟶ c a h transits succeeds),
)

step_ready :
    (c : Call) (a : Artifact)
    → a.status ≡ ready
    → ((step c a).0.status ≡ ready)
      × ((step c a).0.s3_binary_key ≡ a.s3_binary_key)
      × ((step c a).0.sha256_checksum ≡ a.sha256_checksum)
unfolding step
step_ready c a h = ground arith

-- A READY artifact stays READY under any calls, with the same storage key and the same checksum.
pub ready_immutable :
    (cs : List Call) (a : Artifact)
    → a.status ≡ ready
    → ((run cs a).status ≡ ready)
      × ((run cs a).s3_binary_key ≡ a.s3_binary_key)
      × ((run cs a).sha256_checksum ≡ a.sha256_checksum)
unfolding run
ready_immutable [] a h = (h, refl, refl)
ready_immutable (c ∷ cs) a h =
    let first = step_ready c a h in
    let rest = ready_immutable cs (step c a).0 first.0 in
    (rest.0, rest.1 ∙ first.1, rest.2 ∙ first.2)
