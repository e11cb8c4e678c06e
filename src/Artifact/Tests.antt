-- ===== src/Artifact/Tests.antt =====
-- internal/domain/model/artifact.go on concrete artifacts.
use vuhive_cloud.Common.{
  ◌≡◌, ◌↔◌, refl, List, [], ◌∷◌, codes, trim_space, ok, err, invalid_platform,
}
use vuhive_cloud.Common.Int.{pos}
use vuhive_cloud.Artifact.{
  Artifact, pending, building, ready, linux_arm64, Call, builds, retries, readies, cancels, step,
  run, new_artifact, is_valid_sha256, parse_platform,
}
use vuhive_cloud.Artifact.Lifecycle.{
  IsConsistent, created_artifact-IsConsistent, ◌⟶◌, Moves, build_lifecycle_exact, some_checksum,
}

parse_trimmed : parse_platform (codes " linux/arm64 ") ≡ ok linux_arm64
unfolding parse_platform trim_space
parse_trimmed = refl

parse_unknown : parse_platform (codes "windows/amd64") ≡ err invalid_platform
unfolding parse_platform trim_space
parse_unknown = refl

abbrev fresh : Artifact
fresh = record {
  id = codes "a1";
  suite_id = codes "s1";
  platform = linux_arm64;
  description = codes "nightly";
  s3_binary_key = [];
  sha256_checksum = [];
  build_logs_s3_key = [];
  status = pending;
  error_message = [];
  created_at = pos 10;
}

created-fresh :
    new_artifact (codes "a1") (pos 10) (codes "s1 ") linux_arm64 (codes " nightly" ∷ []) ≡ ok fresh
unfolding new_artifact trim_space
created-fresh = refl

abbrev life : List Call
life =
    builds
    ∷ cancels []
    ∷ retries
    ∷ builds
    ∷ readies (codes "bin/a1 ") some_checksum
    ∷ cancels (codes "late")
    ∷ []

life_ready : (run life fresh).status ≡ ready
unfolding run step is_valid_sha256 trim_space
life_ready = refl

created_artifact-IsConsistent_example : IsConsistent (run life fresh)
created_artifact-IsConsistent_example =
    created_artifact-IsConsistent (codes "a1") (pos 10) (codes "s1 ") linux_arm64
      (codes " nightly" ∷ []) fresh life created-fresh

build_lifecycle_exact_example : (fresh.status ⟶ building) ↔ Moves fresh building
build_lifecycle_exact_example = build_lifecycle_exact fresh building refl
