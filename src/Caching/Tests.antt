-- ===== src/Caching/Tests.antt =====
-- internal/bff/adapters/outbound/cache/memory.go: a value that is read and expires.
use vuhive_cloud.Common.{◌≡◌, refl, true, codes}
use vuhive_cloud.Common.Dict.{lookup}
use vuhive_cloud.Common.Int.{pos}
use vuhive_cloud.Caching.{record_and_check_change, new_health_probe_tracker}

reports_first_failure :
    (record_and_check_change (codes "/healthz") (pos 503) new_health_probe_tracker).1 ≡ true
unfolding record_and_check_change lookup
reports_first_failure = refl
