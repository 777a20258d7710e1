-- ===== src/StoragePool.antt =====
-- operator/api/v1alpha1/storagepool_types.go and the pool parts of conditions.go.
use stornas.Base.{ℕ, String, Bool, Option, List, ◌==◌, if◌then◌else◌}
use stornas.Kube.{ObjectMeta, Condition, vg_name_of}

pub record StoragePoolSpec : Type 0 where
  pub node : String
  pub devices : List String
  pub tier : String
  pub raid : String
  pub thin : Option Bool

pub record DeviceStatus : Type 0 where
  pub path : String
  pub serial : String
  pub smart : String
  pub state : String

pub record StoragePoolStatus : Type 0 where
  pub conditions : List Condition
  pub vg : String
  pub capacity : Option ℕ
  pub free : Option ℕ
  pub health : String
  pub devices : List DeviceStatus
  pub rebuild_percent : Option ℕ

pub record StoragePool : Type 0 where
  pub meta : ObjectMeta
  pub spec : StoragePoolSpec
  pub status : StoragePoolStatus

-- `VGName`.
unfoldable pub vg_name : StoragePool → String
vg_name p = vg_name_of p.meta.name

-- `MinDevices`.
unfoldable pub min_devices : String → ℕ
min_devices raid =
    if raid == "raid1" then 2 else if raid == "raid5" then 3 else if raid == "raid10" then 4 else 1

-- The pool with other conditions, or other finalizers.
unfoldable pub with_conditions : StoragePool → List Condition → StoragePool
with_conditions p cs = record p { status = record p.status { conditions = cs } }

unfoldable pub with_finalizers : StoragePool → List String → StoragePool
with_finalizers p fs = record p { meta = record p.meta { finalizers = fs } }
