-- ===== src/Lio/Shared.antt =====
-- The names of the backstores of internal/agent/lio.go do not keep all targets apart.
use stornas.Base.{
  ℕ, String, ◌≡◌, inl, inr, true, List, [], ◌∷◌, if◌then◌else◌, ◌<>◌, Bool-cases, In, here, there,
  decimal,
}
use text.Mathlib.TextPositions.{starts_with-append}
use text.Mathlib.TextLemmas.{append_assoc}
use stornas.Kube.{iqn_prefix}
use stornas.Host.{Reply, ran, run_failed, Log, Runner}
use stornas.Host.Growth.{Before, now, later, Before-trans}
use stornas.Strings.{fields, has_prefix, trim_space}
use stornas.Vip.{IpJson, release_vip, release_recorded, drop_vip, del_each, vip_holders, vip_record}
use stornas.Lio.{
  targetcli, blocks, backstore, delete_block, remove_target, delete_listed, delete_blocks,
}

abbrev pub prefix_for : String → String
prefix_for name = "stornas-" <> name <> "-lun"

-- A target whose name extends another's by "-lun" and more.
abbrev pub extended : String → String → String
extended name more = name <> "-lun" <> more

backstore-has_prefix :
    (name more : String) (id : ℕ)
    → has_prefix (backstore (extended name more) id) (prefix_for name) ≡ true
unfolding has_prefix
backstore-has_prefix name more id =
    let e : backstore (extended name more) id
        ≡ prefix_for name <> (more <> ("-lun" <> decimal id)) =
      simp (append_assoc) in
    rw e (starts_with-append (prefix_for name) (more <> ("-lun" <> decimal id)))

module _ (json : IpJson) (run : Runner) where
  del_each-Before :
      (vip : String) (devs : List String) (log : Log)
      → Before log (del_each json run vip (log, devs))
  unfolding del_each
  del_each-Before vip [] log = now
  del_each-Before vip (d ∷ ds) log =
      Before-trans log (_ ∷ log) _ (later now) (del_each-Before vip ds (_ ∷ log))

  release_recorded-Before :
      (path : String) (log : Log) (r : Reply) → Before log (release_recorded json run path log r)
  unfolding release_recorded drop_vip vip_holders
  release_recorded-Before path log (run_failed out e) = now
  release_recorded-Before path log (ran vip) =
      later
        (Before-trans log (_ ∷ log) _ (later now) (del_each-Before (trim_space vip) _ (_ ∷ log)))

  release_vip-Before :
      (root name : String) (log : Log) → Before log (release_vip json run root name log)
  unfolding release_vip
  release_vip-Before root name log =
      Before-trans log (_ ∷ log) _ (later now)
        (release_recorded-Before (vip_record root name) _ (run log _))

  delete_blocks-log :
      (prefix : String) (fs : List String) (log : Log)
      → Before log (delete_blocks run prefix fs log)
  unfolding delete_blocks
  delete_blocks-log prefix [] log = now
  delete_blocks-log prefix (f ∷ fs) log = elim (Bool-cases (has_prefix f prefix)) [
    | inl e ↦
        rw e (Before-trans log (delete_block f ∷ log) _ (later now) (delete_blocks-log prefix fs _))
    | inr e ↦ rw e (delete_blocks-log prefix fs log)
  ]

  delete_blocks-has_prefix :
      (prefix : String) (fs : List String) (log : Log) (b : String)
      → has_prefix b prefix ≡ true
      → In b fs
      → (l : Log) × Before (delete_block b ∷ l) (delete_blocks run prefix fs log)
  unfolding delete_blocks
  delete_blocks-has_prefix prefix [] log b h i = elim i [ ]
  delete_blocks-has_prefix prefix (f ∷ fs) log b h (here e) =
      (log, rw (← e, h) (delete_blocks-log prefix fs (delete_block b ∷ log)))
  delete_blocks-has_prefix prefix (f ∷ fs) log b h (there i) =
      delete_blocks-has_prefix prefix fs (if has_prefix f prefix then delete_block f ∷ log else log)
        b h i

  -- The removal of a target deletes the backstores of every other target whose name is this one's,
  -- followed by "-lun" and anything: whatever the rest of that name and the number of the LUN are, if
  -- the listing of the backstores shows it, it is deleted.
  pub remove_target_takes_foreign :
      (root name more out : String) (id : ℕ) (log : Log)
      → run
          (targetcli ("/iscsi" ∷ "delete" ∷ (iqn_prefix <> name) ∷ []) ∷ log)
          (targetcli ("ls" ∷ blocks ∷ "1" ∷ []))
        ≡ ran out
      → In (backstore (extended name more) id) (fields out)
      → (l : Log) × Before
          (delete_block (backstore (extended name more) id) ∷ l)
          (remove_target run json root name log)
  unfolding remove_target delete_listed
  remove_target_takes_foreign root name more out id log r i =
      let (l, b) =
        delete_blocks-has_prefix (prefix_for name) (fields out)
          (targetcli ("ls" ∷ blocks ∷ "1" ∷ [])
            ∷ targetcli ("/iscsi" ∷ "delete" ∷ (iqn_prefix <> name) ∷ [])
            ∷ log)
          (backstore (extended name more) id) (backstore-has_prefix name more id) i in
      (l, rw (r, delete_listed) (Before-trans _ _ _ (later b) (release_vip-Before root name _)))
