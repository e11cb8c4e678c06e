-- ===== src/BarrierService/Tests.antt =====
-- internal/application/service/barrier_service.go on a concrete session.
use vuhive_cloud.Common.{
  ◌≡◌, ◌⊎◌, refl, Bool, true, false, Option, none, some, List, [], ◌∷◌, Text, codes, Result, err,
  arith, invalid_worker_count,
}
use vuhive_cloud.Common.Int.{pos}
use vuhive_cloud.Coordinator.{new_coordinator, returns}
use vuhive_cloud.BarrierService.{request}

no_workers :
    (request
      (pos 0)
      (record {
        run_id = codes "r";
        worker_id = codes "w";
        total_workers = pos 0;
        timeout = pos 0;
        release_delay = pos 0;
      })
      new_coordinator).1
    ≡ returns (err invalid_worker_count)
unfolding request vuhive_cloud.Common.trim_space
no_workers = refl
