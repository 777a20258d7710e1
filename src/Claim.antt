-- ===== src/Claim.antt =====
-- operator/internal/controller/claim.go: from a claim to its r-drbd volume, and which volume
-- updates can move a placement.
pub mod Changes
pub mod Serving
mod Examples
use stornas.Base.{String, ◌≡◌, ◌≢◌, not, Option, none, some, ◌==◌, if◌then◌else◌, ◌<>◌}
use stornas.Kube.{
  ObjectMeta, Reason, waiting_for_volume, invalid_spec, GetReply, found, get_not_found, get_failed,
}
use stornas.Volume.{Volume}

-- A PersistentVolumeClaim. A map of Go answers the empty string for a missing key, as the function
-- `annotation` does.
pub record Pvc : Type 0 where
  pub meta : ObjectMeta
  pub annotation : String → String
  pub volume_name : String
  pub storage_class_name : Option String

pub record CsiSource : Type 0 where
  pub driver : String
  pub volume_handle : String

pub record ClaimRef : Type 0 where
  pub namespace : String
  pub name : String

pub record Pv : Type 0 where
  pub csi : Option CsiSource
  pub claim_ref : Option ClaimRef

-- The reads of the API server.
pub record Reader : Type 0 where
  pub get_pvc : String → String → GetReply Pvc
  pub get_pv : String → GetReply Pv
  pub get_volume : String → GetReply Volume

-- `Driver` of operator/api/rdrbd/v1alpha1/groupversion_info.go.
abbrev pub driver_name : String
driver_name = "r-drbd.io"

pub data ClaimVolume : Type 0 where
  usable : Volume → ClaimVolume
  unusable : Reason → String → ClaimVolume

-- The last step of `claimVolume`: every read error counts as not found.
unfoldable pub volume_of_handle : Reader → String → ClaimVolume
volume_of_handle c handle = elim (c.get_volume handle) [
  | found v ↦ usable v
  | get_not_found ↦ unusable waiting_for_volume ("r-drbd volume " <> handle <> " not found")
  | get_failed _ ↦ unusable waiting_for_volume ("r-drbd volume " <> handle <> " not found")
]

unfoldable pub volume_of_csi : Reader → Option CsiSource → ClaimVolume
volume_of_csi c none = unusable invalid_spec "claim is not backed by r-drbd"
volume_of_csi c (some csi) =
    if not (csi.driver == driver_name)
    then unusable invalid_spec "claim is not backed by r-drbd"
    else volume_of_handle c csi.volume_handle

unfoldable pub volume_of_pv : Reader → String → ClaimVolume
volume_of_pv c name = elim (c.get_pv name) [
  | found pv ↦ volume_of_csi c pv.csi
  | get_not_found ↦ unusable waiting_for_volume ("volume " <> name <> " not found")
  | get_failed _ ↦ unusable waiting_for_volume ("volume " <> name <> " not found")
]

-- `claimVolume`.
unfoldable pub claim_volume : Reader → String → String → ClaimVolume
claim_volume c namespace claim = elim (c.get_pvc namespace claim) [
  | found pvc ↦
      if pvc.volume_name == ""
      then unusable waiting_for_volume ("claim " <> claim <> " not bound")
      else volume_of_pv c pvc.volume_name
  | get_not_found ↦ unusable waiting_for_volume ("claim " <> claim <> " not found")
  | get_failed _ ↦ unusable waiting_for_volume ("claim " <> claim <> " not found")
]

-- `volumeClaim`: the claim that the volume of this name is bound to.
unfoldable pub volume_claim : Reader → String → Option ClaimRef
volume_claim c name = elim (c.get_pv name) [
  | found pv ↦ pv.claim_ref
  | get_not_found ↦ none
  | get_failed _ ↦ none
]

-- The objects along the way from a bound claim to its volume.
pub record Backs (c : Reader) (namespace claim : String) (v : Volume) : Type 0 where
  pub pvc : Pvc
  pub pv : Pv
  pub csi : CsiSource
  pub bound : c.get_pvc namespace claim ≡ found pvc
  pub named : pvc.volume_name ≢ ""
  pub has_pv : c.get_pv pvc.volume_name ≡ found pv
  pub has_csi : pv.csi ≡ some csi
  pub ours : csi.driver ≡ driver_name
  pub has_volume : c.get_volume csi.volume_handle ≡ found v
