-- ===== src/Storage.antt =====
-- internal/adapters/outbound/s3/keys.go: the keys of the objects in the bucket.
use vuhive_cloud.Common.{
  ◌++◌, Text, codes, trim_space, is_blank, if◌then◌else◌, Result, ok, err, reject_if, ◌>>◌,
  validation, invalid_platform,
}
use vuhive_cloud.Common.Int.{ℤ, pos, ltb_ℤ}
use vuhive_cloud.Artifact.{Platform, linux_amd64, linux_arm64, unsupported}
use vuhive_cloud.Partition.Numbers.{itoa}

unfoldable pub key_source_tarball : Text → Text → Result Text
key_source_tarball suite_id version =
    reject_if (is_blank suite_id) validation
    >> ok (
        codes "suites/"
        ++ (trim_space suite_id
            ++ (if is_blank version
                then codes "/sources/source.tar.gz"
                else codes "/sources/source-" ++ (trim_space version ++ codes ".tar.gz"))))

unfoldable pub key_binary_artifact : Text → Text → Platform → Result Text
key_binary_artifact suite_id artifact_id platform =
    reject_if (is_blank suite_id) validation
    >> (reject_if (is_blank artifact_id) validation >> elim platform [
      | linux_amd64 ↦ ok (
          codes "suites/"
          ++ (trim_space suite_id
              ++ (codes "/artifacts/" ++ (trim_space artifact_id ++ codes "/linux-amd64/runner"))))
      | linux_arm64 ↦ ok (
          codes "suites/"
          ++ (trim_space suite_id
              ++ (codes "/artifacts/" ++ (trim_space artifact_id ++ codes "/linux-arm64/runner"))))
      | unsupported t ↦ err invalid_platform
    ])

unfoldable pub key_build_logs : Text → Text → Result Text
key_build_logs suite_id artifact_id =
    reject_if (is_blank suite_id) validation
    >> (reject_if (is_blank artifact_id) validation
        >> ok (
            codes "suites/"
            ++ (trim_space suite_id
                ++ (codes "/artifacts/" ++ (trim_space artifact_id ++ codes "/build.log")))))

unfoldable pub key_configuration : Text → Text → Result Text
key_configuration suite_id config_id =
    reject_if (is_blank suite_id) validation
    >> (reject_if (is_blank config_id) validation
        >> ok (
            codes "suites/"
            ++ (trim_space suite_id
                ++ (codes "/configs/" ++ (trim_space config_id ++ codes ".yaml")))))

unfoldable pub key_execution_logs : Text → Result Text
key_execution_logs run_id =
    reject_if (is_blank run_id) validation
    >> ok (codes "runs/" ++ (trim_space run_id ++ codes "/run.log"))

unfoldable pub key_summary_report : Text → Result Text
key_summary_report run_id =
    reject_if (is_blank run_id) validation
    >> ok (codes "runs/" ++ (trim_space run_id ++ codes "/summary.json"))

-- The key of an object of a worker of a run.
abbrev worker_key : Text → ℤ → Text → Result Text
worker_key run_id index name =
    reject_if (is_blank run_id) validation
    >> (reject_if (ltb_ℤ index (pos 0)) validation
        >> ok (codes "runs/" ++ (trim_space run_id ++ (codes "/workers/" ++ (itoa index ++ name)))))

unfoldable pub key_worker_summary_report : Text → ℤ → Result Text
key_worker_summary_report run_id index = worker_key run_id index (codes "/summary.json")

unfoldable pub key_worker_execution_logs : Text → ℤ → Result Text
key_worker_execution_logs run_id index = worker_key run_id index (codes "/run.log")

unfoldable pub key_worker_config : Text → ℤ → Result Text
key_worker_config run_id index = worker_key run_id index (codes "/vuhive.yaml")
