-- ===== src/Replace/Steps.antt =====
-- Which devices the convergence takes out of a VG.
use stornas.Base.{String, ◌∷◌, In}
use stornas.Host.{Command, Log, Runner}
use stornas.Lvm.{vgreduce, vgextend, pvmove, pvremove, pvs, pvcreate}
use stornas.StoragePool.{StoragePool, vg_name}
use stornas.Replace.{DevicePlan, destination}

module _ (run : Runner) (p : StoragePool) (plan : DevicePlan) where
  -- A command of the convergence: what joins is a newcomer of the plan, what is moved off and what
  -- leaves is what the plan says.
  pub data Planned : Command → Type 0 where
    looks : (dev : String) → In dev plan.add → Planned (pvs dev)
    labels : (dev : String) → In dev plan.add → Planned (pvcreate dev)
    joins : (dev : String) → In dev plan.add → Planned (vgextend (vg_name p) dev)
    evacuates : (dev : String) → In dev plan.evacuate → Planned (pvmove dev (destination plan.add))
    leaves : (dev : String) → In dev plan.drop → Planned (vgreduce (vg_name p) dev)
    unlabels : (dev : String) → In dev plan.drop → Planned (pvremove dev)

  pub data Converges (log : Log) : Log → Type 0 where
    same : Converges log log
    more : {l : Log} {c : Command} → Converges log l → Planned c → Converges log (c ∷ l)
