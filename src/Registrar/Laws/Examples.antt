-- ===== src/Registrar/Laws/Examples.antt =====
-- A pool at node `a` and its r-drbd Pool.
use stornas.Base.{◌≡◌, refl, In, here}
use stornas.Kube.{found, written}
use stornas.Kube.Concrete.{concrete}
use stornas.Registrar.{
  pool_spec, pool_ready, ensure_pool, ensure_found, same_location, readiness, delete_pool,
  delete_found, is_ours, delete_pool_object,
}
use stornas.StoragePool.{vg_name}
use stornas.Samples.{tank, tank_pool}

ready_runs : (ensure_pool concrete tank (found tank_pool) written).1 ≡ pool_ready
unfolding ensure_pool ensure_found same_location pool_spec vg_name readiness
ready_runs = refl

asks : In (delete_pool_object tank_pool) (delete_pool tank (found tank_pool) written).0
unfolding delete_pool delete_found is_ours vg_name
asks = here refl
