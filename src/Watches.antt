-- ===== src/Watches.antt =====
-- What an event makes the controllers of operator/internal/controller look at again: the mappers of
-- share_controller.go, target_controller.go and claim_binder.go. A failed list maps to nothing. The
-- lists are those of one namespace where the source asks for one.
pub mod Wakes
mod Examples
use stornas.Base.{String, Bool, Option, none, some, List, [], ◌∷◌, ◌==◌, any, select}
use stornas.Kube.{ListReply, items, list_failed}
use stornas.Claim.{Reader, ClaimRef, Pvc, volume_claim}
use stornas.Share.{Share, all_shares}
use stornas.Target.{Target, Initiator, Lun}
use stornas.ClaimBinder.{host_claim_pending}

-- A request: the namespace and the name of an object.
abbrev pub Request : Type 0
Request = String × String

abbrev pub listed {ℓ} : {A : Type ℓ} → ListReply A → List A
listed (items l) = l
listed (list_failed e) = []

unfoldable pub share_requests : ListReply Share → List Request
share_requests reply = all_shares (listed reply)

-- `volumeShares`, by the claim of the volume.
unfoldable pub shares_of_claim : (String → ListReply Share) → Option ClaimRef → List Request
shares_of_claim list none = []
shares_of_claim list (some claim) =
    all_shares
      (select (λ (s : Share). s.spec.claim_name == claim.name) (listed (list claim.namespace)))

unfoldable pub volume_shares : Reader → (String → ListReply Share) → String → List Request
volume_shares c list volume = shares_of_claim list (volume_claim c volume)

unfoldable pub all_targets : List Target → List Request
all_targets [] = []
all_targets (t ∷ ts) = (t.meta.namespace, t.meta.name) ∷ all_targets ts

unfoldable pub target_requests : ListReply Target → List Request
target_requests reply = all_targets (listed reply)

abbrev pub uses_secret : String → Target → Bool
uses_secret secret t = any (λ (i : Initiator). i.chap_secret_ref == secret) t.spec.initiators

abbrev pub uses_claim : String → Target → Bool
uses_claim claim t = any (λ (l : Lun). l.claim_name == claim) t.spec.luns

-- `secretTargets`: the Secret's namespace and name.
unfoldable pub secret_targets : (String → ListReply Target) → String → String → List Request
secret_targets list namespace secret =
    all_targets (select (uses_secret secret) (listed (list namespace)))

-- `volumeTargets`, by the claim of the volume.
unfoldable pub targets_of_claim : (String → ListReply Target) → Option ClaimRef → List Request
targets_of_claim list none = []
targets_of_claim list (some claim) =
    all_targets (select (uses_claim claim.name) (listed (list claim.namespace)))

unfoldable pub volume_targets : Reader → (String → ListReply Target) → String → List Request
volume_targets c list volume = targets_of_claim list (volume_claim c volume)

unfoldable pub all_claims : List Pvc → List Request
all_claims [] = []
all_claims (p ∷ ps) = (p.meta.namespace, p.meta.name) ∷ all_claims ps

-- `pendingHostClaims`.
unfoldable pub pending_host_claims : ListReply Pvc → List Request
pending_host_claims reply = all_claims (select host_claim_pending (listed reply))
