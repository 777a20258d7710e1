-- ===== src/Target/Served/Luns.antt =====
-- The LUNs of a target and what the loop over them finds.
use stornas.Base.{ℕ, String, ◌≡◌, sym, ap, ◌∙◌, Bool, false, ◌||◌, List, [], ◌∷◌, arith, In, subst}
use stornas.Volume.{Volume, ReplicaStatus}
use stornas.Claim.{Reader, Backs, usable, claim_volume}
use stornas.Claim.Serving.{claim_volume_iff}
use stornas.Placement.{placed, resolve_placement, replica_count}
use stornas.Placement.Best.{IsPreferred, resolve-IsPreferred}
use stornas.Target.{Lun, LunStatus, all_usable, volumes_of, located, locate_rest, more_than_one}

-- Each LUN in turn with the status that it gets: its claim is bound to a volume, and its device is
-- that of the replica that the placement rules prefer. The node is that of the first LUN, and the
-- Boolean says whether any volume has more than one diskful copy.
pub data Serves (c : Reader) (namespace prefer : String) (avoid : String → Bool)
    : List Lun → List LunStatus → String → Bool → Type 0 where
  no_luns : Serves c namespace prefer avoid [] [] "" false
  lun :
      {luns : List Lun} {ls : List LunStatus} {node first device : String} {more replicated : Bool}
      (l : Lun) (v : Volume) (r : ReplicaStatus)
      → Backs c namespace l.claim_name v
      → In r v.replicas
      → IsPreferred v prefer avoid r
      → r.node ≡ first
      → r.device_path ≡ device
      → (more_than_one (replica_count v) || more) ≡ replicated
      → Serves c namespace prefer avoid luns ls node more
      → Serves c namespace prefer avoid
          (l ∷ luns)
          (record { id = l.id; device = device } ∷ ls)
          first
          replicated

resolve_count :
    (v : Volume) (prefer : String) (avoid : String → Bool) (node device : String) (n : ℕ)
    → resolve_placement v prefer avoid ≡ placed node device n
    → replica_count v ≡ n
unfolding resolve_placement
resolve_count v prefer avoid node device n h = ground arith

module _ (c : Reader) (namespace prefer : String) (avoid : String → Bool) where
  -- The rounds of the two loops.
  volumes_cons :
      (l : Lun) (luns : List Lun) (vs : List Volume)
      → volumes_of c namespace (l ∷ luns) ≡ all_usable vs
      → (v : Volume) × (ws : List Volume) × (claim_volume c namespace l.claim_name ≡ usable v)
        × (volumes_of c namespace luns ≡ all_usable ws)
        × (vs ≡ v ∷ ws)
  unfolding volumes_of
  volumes_cons l luns vs h = ground arith

  locate_cons :
      (l : Lun) (luns : List Lun) (v : Volume) (vs : List Volume) (node : String) (b : Bool)
      (ls : List LunStatus)
      → locate_rest prefer avoid (l ∷ luns) (v ∷ vs) ≡ located node b ls
      → (device : String) × (n : ℕ) × (node' : String) × (b' : Bool) × (ls' : List LunStatus)
        × (resolve_placement v prefer avoid ≡ placed node device n)
        × (locate_rest prefer avoid luns vs ≡ located node' b' ls')
        × ((more_than_one n || b') ≡ b)
        × (ls ≡ record { id = l.id; device = device } ∷ ls')
  unfolding locate_rest
  locate_cons l luns v vs node b ls h = ground arith

  -- The relation at equal statuses.
  Serves-eq :
      (luns : List Lun) (ls ls' : List LunStatus) (node : String) (b : Bool)
      → ls ≡ ls'
      → Serves c namespace prefer avoid luns ls' node b
      → Serves c namespace prefer avoid luns ls node b
  Serves-eq luns ls ls' node b e s =
      subst (λ (x : List LunStatus). Serves c namespace prefer avoid luns x node b) (sym e) s

  nothing_located :
      (node : String) (b : Bool) (ls : List LunStatus)
      → located "" false [] ≡ located node b ls
      → Serves c namespace prefer avoid [] ls node b
  nothing_located node b ls e =
      let e₁ : ls ≡ [] = cc in
      let e₂ : node ≡ "" = cc in let e₃ : b ≡ false = cc in rw (e₁, e₂, e₃) no_luns

  -- What the loops find, the relation says.
  pub located-Serves :
      (luns : List Lun) (vs : List Volume) (node : String) (b : Bool) (ls : List LunStatus)
      → volumes_of c namespace luns ≡ all_usable vs
      → locate_rest prefer avoid luns vs ≡ located node b ls
      → Serves c namespace prefer avoid luns ls node b
  unfolding volumes_of locate_rest
  located-Serves [] [] node b ls h k = nothing_located node b ls k
  located-Serves [] (v ∷ vs) node b ls h k = nothing_located node b ls k
  located-Serves (l ∷ luns) [] node b ls h k =
      let (v, ws, cl, rest, e) = volumes_cons l luns [] h in absurd (cc)
  located-Serves (l ∷ luns) (v ∷ vs) node b ls h k =
      let (v', ws, cl, rest, e) = volumes_cons l luns (v ∷ vs) h in
      let same : v ≡ v' = cc in
      let tail : ws ≡ vs = cc in
      let (device, n, node', b', ls', re, lo, more, es) = locate_cons l luns v vs node b ls k in
      let (r, i, at_node, at_device, p) = resolve-IsPreferred v prefer avoid node device n re in
      Serves-eq (l ∷ luns) ls (record { id = l.id; device = device } ∷ ls') node b es (
        lun l v r ((claim_volume_iff c namespace l.claim_name v).0 (cl ∙ ap usable (sym same))) i p
          at_node at_device (cc (resolve_count v prefer avoid node device n re, more))
          (located-Serves luns vs node' b' ls' (rest ∙ ap all_usable tail) lo))
