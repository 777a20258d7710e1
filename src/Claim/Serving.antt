-- ===== src/Claim/Serving.antt =====
-- `claimVolume` against the chain of objects that it follows.
use stornas.Base.{
  String, ◌≡◌, refl, ◌≢◌, ◌↔◌, false, Option, none, some, arith, ◌==◌, eq_iff, ne_of_test,
}
use stornas.Kube.{found}
use stornas.Volume.{Volume}
use stornas.Claim.{
  Reader, Pvc, Pv, CsiSource, Backs, usable, claim_volume, volume_of_pv, volume_of_csi,
  volume_of_handle, driver_name,
}

-- Each step returns a volume only if its read found an object that leads on.
csi-usable :
    (c : Reader) (o : Option CsiSource) (v : Volume)
    → volume_of_csi c o ≡ usable v
    → (s : CsiSource) × (o ≡ some s)
      × (s.driver ≡ driver_name)
      × (c.get_volume s.volume_handle ≡ found v)
unfolding volume_of_csi volume_of_handle
csi-usable c none v h = cc
csi-usable c (some s) v h = (
  s,
  refl,
  ground (arith, eq_iff s.driver driver_name),
  ground (arith, eq_iff s.driver driver_name),
)

pv-usable :
    (c : Reader) (name : String) (v : Volume)
    → volume_of_pv c name ≡ usable v
    → (p : Pv) × (c.get_pv name ≡ found p) × (volume_of_csi c p.csi ≡ usable v)
unfolding volume_of_pv
pv-usable c name v h = ground arith

pvc_found :
    (c : Reader) (namespace claim : String) (v : Volume)
    → claim_volume c namespace claim ≡ usable v
    → (p : Pvc) × (c.get_pvc namespace claim ≡ found p)
      × ((p.volume_name == "") ≡ false)
      × (volume_of_pv c p.volume_name ≡ usable v)
unfolding claim_volume
pvc_found c namespace claim v h = ground arith

claim-pv :
    (c : Reader) (namespace claim : String) (v : Volume)
    → claim_volume c namespace claim ≡ usable v
    → (p : Pvc) × (c.get_pvc namespace claim ≡ found p)
      × (p.volume_name ≢ "")
      × (volume_of_pv c p.volume_name ≡ usable v)
unfolding claim_volume
claim-pv c namespace claim v h =
    let (p, e, n, t) = pvc_found c namespace claim v h in (p, e, ne_of_test p.volume_name "" n, t)

claim-usable :
    (c : Reader) (namespace claim : String) (v : Volume)
    → claim_volume c namespace claim ≡ usable v
    → Backs c namespace claim v
claim-usable c namespace claim v h =
    let (pvc, bound, named, in_pv) = claim-pv c namespace claim v h in
    let (pv, has_pv, in_csi) = pv-usable c pvc.volume_name v in_pv in
    let (csi, has_csi, ours, has_volume) = csi-usable c pv.csi v in_csi in
    record {
      pvc = pvc;
      pv = pv;
      csi = csi;
      bound = bound;
      named = named;
      has_pv = has_pv;
      has_csi = has_csi;
      ours = ours;
      has_volume = has_volume;
    }

-- `claimVolume` returns a volume exactly when the claim is bound to an r-drbd PV whose handle
-- names that volume.
pub claim_volume_iff :
    (c : Reader) (namespace claim : String) (v : Volume)
    → (claim_volume c namespace claim ≡ usable v) ↔ Backs c namespace claim v
unfolding claim_volume volume_of_pv volume_of_csi volume_of_handle
claim_volume_iff c namespace claim v = (
  claim-usable c namespace claim v,
  λ b. ground (
    arith,
    b.bound,
    b.named,
    b.has_pv,
    b.has_csi,
    b.ours,
    b.has_volume,
    eq_iff b.pvc.volume_name "",
    eq_iff b.csi.driver driver_name,
  ),
)
