-- ===== src/ShareAgent/Served.antt =====
-- What a successful `EnsureShare` of internal/agent/share.go has done on the host.
use stornas.Base.{
  String, ◌≡◌, refl, ap, ◌≢◌, inl, inr, true, Option, none, some, ◌∷◌, ◌==◌, ◌<>◌, Bool-cases,
  eq_of_test,
}
use stornas.Share.{Share, NfsExport}
use stornas.Host.{
  Command, Reply, ran, run_failed, Log, Runner, try, unless, succeeds, unless_failed, write_file,
  remove_file, make_dirs,
}
use stornas.Host.Growth.{
  Before, now, later, Before-trans, Grows-Before, Before-unless_failed, split_none,
  succeeds-error_of,
}
use stornas.Strings.{trim_space}
use stornas.ShareAgent.{
  ShareManager, findmnt, mount, restorecon, sync_exports, flush_exports, Mount, mounted,
  not_mounted, unmount_failed, after_unmount, unmount_other, format_device, relabel, make_mount,
  mount_unless, ensure_mount, export_nfs, reexport, ensure_share, export_line, is_missing,
}
use stornas.ShareAgent.Formats.{mount_of, exports_of, format_blank-Does}

module _ (run : Runner) (m : ShareManager) (s : Share) where
  -- The placed device is mounted: the host said so, or `mount` succeeded.
  pub data Mounted (log : Log) : Log → Type 0 where
    seen :
        (src : String)
        → run log (findmnt (mount_of s)) ≡ ran src
        → trim_space src ≡ s.status.device
        → Mounted log (findmnt (mount_of s) ∷ log)
    made :
        (l : Log)
        → Before log l
        → succeeds (run l (mount s.status.device (mount_of s))) ≡ true
        → Mounted log (restorecon (mount_of s) ∷ mount s.status.device (mount_of s) ∷ l)

  -- The exports file has the clients of the spec, or is absent where the spec has no NFS.
  pub data NfsSet : Log → Type 0 where
    export_written :
        (l : Log) (nfs : NfsExport)
        → s.spec.nfs ≡ some nfs
        → succeeds (run l (write_file (exports_of m s) (export_line (mount_of s) nfs))) ≡ true
        → NfsSet (write_file (exports_of m s) (export_line (mount_of s) nfs) ∷ l)
    export_removed :
        (l : Log)
        → s.spec.nfs ≡ none
        → unless is_missing (run l (remove_file (exports_of m s))) ≡ none
        → NfsSet (remove_file (exports_of m s) ∷ l)

  -- From the one log to the other, the device was mounted, then the exports file was set, and then
  -- the exports were synced and their caches flushed.
  pub record Serves (log final : Log) : Type 0 where
    pub mounted_at : Log
    pub is_mounted : Mounted log mounted_at
    pub set_at : Log
    pub after_mount : Before mounted_at set_at
    pub nfs_set : NfsSet set_at
    pub synced : succeeds (run set_at sync_exports) ≡ true
    pub flushed : succeeds (run (sync_exports ∷ set_at) flush_exports) ≡ true
    pub is_final : final ≡ flush_exports ∷ sync_exports ∷ set_at

  try_lem : (c : Command) (log : Log) → (try run c log).1 ≡ none → succeeds (run log c) ≡ true
  try_lem c log h = succeeds-error_of (run log c) h

  make_mount-Mounted :
      (log0 log : Log)
      → Before log0 log
      → (make_mount run m.root s.status.device (mount_of s) log).1 ≡ none
      → Mounted log0 (make_mount run m.root s.status.device (mount_of s) log).0
  unfolding make_mount format_device relabel
  make_mount-Mounted log0 log b h =
      let dev = s.status.device in
      let formatted = format_device run dev log in
      let with_dir = unless_failed formatted (try run (make_dirs (m.root <> mount_of s))) in
      let (h1, e1) =
        split_none (unless_failed with_dir (try run (mount dev (mount_of s))))
          (relabel run (mount_of s)) h in
      let (h2, e2) = split_none with_dir (try run (mount dev (mount_of s))) h1 in
      let before =
        Before-unless_failed log formatted (try run (make_dirs (m.root <> mount_of s)))
          (Grows-Before log formatted.0 (format_blank-Does run m s log _ refl).0)
          (λ l. later now) in
      rw (e1, e2)
        (made with_dir.0 (Before-trans log0 log with_dir.0 b before)
          (try_lem _ with_dir.0 (rw e2 at h1)))

  mount_unless-Mounted :
      (log0 log : Log) (known : Mount)
      → Before log0 log
      → (known ≡ mounted → Mounted log0 log)
      → (mount_unless run m.root s.status.device (mount_of s) (log, known)).1 ≡ none
      → Mounted log0 (mount_unless run m.root s.status.device (mount_of s) (log, known)).0
  unfolding mount_unless
  mount_unless-Mounted log0 log mounted b x h = x refl
  mount_unless-Mounted log0 log (unmount_failed e) b x h = absurd (cc)
  mount_unless-Mounted log0 log not_mounted b x h = make_mount-Mounted log0 log b h

  after_unmount-not_mounted : (r : Log × Option String) → (after_unmount run r).1 ≢ mounted
  unfolding after_unmount
  after_unmount-not_mounted (log, none) e = cc
  after_unmount-not_mounted (log, some x) e = cc

  after_unmount-Before :
      (log : Log) (r : Log × Option String) → Before log r.0 → Before log (after_unmount run r).0
  unfolding after_unmount
  after_unmount-Before log (l, none) b = b
  after_unmount-Before log (l, some x) b = b

  unmount_other-Mounted :
      (log : Log) (r : Reply)
      → run log (findmnt (mount_of s)) ≡ r
      → let u = unmount_other run s.status.device (mount_of s) (findmnt (mount_of s) ∷ log, r) in
        Before log u.0 × (u.1 ≡ mounted → Mounted log u.0)
  unfolding unmount_other
  unmount_other-Mounted log (run_failed out e) h = (later now, λ x. absurd (cc))
  unmount_other-Mounted log (ran src) h = elim (Bool-cases (trim_space src == s.status.device)) [
    | inl e ↦ rw (e, unmount_other) (later now, λ x. seen src h (eq_of_test _ _ e))
    | inr e ↦
        rw (e, unmount_other)
          (
            after_unmount-Before log _ (later (later now)),
            λ x. absurd (after_unmount-not_mounted _ x),
          )
  ]

  ensure_mount-Mounted :
      (log : Log)
      → (ensure_mount run m.root s.status.device (mount_of s) log).1 ≡ none
      → Mounted log (ensure_mount run m.root s.status.device (mount_of s) log).0
  unfolding ensure_mount
  ensure_mount-Mounted log h =
      let u =
        unmount_other run s.status.device (mount_of s)
          (findmnt (mount_of s) ∷ log, run log (findmnt (mount_of s))) in
      let (b, x) = unmount_other-Mounted log (run log (findmnt (mount_of s))) refl in
      mount_unless-Mounted log u.0 u.1 b x h

  export_nfs-NfsSet :
      (nfs : Option NfsExport) (log : Log)
      → s.spec.nfs ≡ nfs
      → (export_nfs run (exports_of m s) (mount_of s) nfs log).1 ≡ none
      → Before log (export_nfs run (exports_of m s) (mount_of s) nfs log).0
        × NfsSet (export_nfs run (exports_of m s) (mount_of s) nfs log).0
  unfolding export_nfs
  export_nfs-NfsSet (some nfs) log e h = (later now, export_written log nfs e (try_lem _ log h))
  export_nfs-NfsSet none log e h = (later now, export_removed log e h)

  -- When `EnsureShare` succeeds, the device of the placement is mounted at the share's directory, or
  -- was found there; after that the exports file was written with the clients of the spec, or removed
  -- where the spec has no NFS; and last the exports were synced and the kernel's caches of them
  -- flushed, both with success, so that a client that was dropped has no access any more.
  pub ensure_share-Serves :
      (log : Log) → (ensure_share run m s log).1 ≡ none → Serves log (ensure_share run m s log).0
  unfolding ensure_share reexport
  ensure_share-Serves log h =
      let mounting = ensure_mount run m.root s.status.device (mount_of s) log in
      let export = export_nfs run (exports_of m s) (mount_of s) s.spec.nfs in
      let (h1, e1) = split_none (unless_failed mounting export) (reexport run) h in
      let (h2, e2) = split_none mounting export h1 in
      let (b, n) = export_nfs-NfsSet s.spec.nfs mounting.0 refl (rw e2 at h1) in
      let set_at = (export mounting.0).0 in
      let (h3, e3) =
        split_none (try run sync_exports set_at) (try run flush_exports) (rw (e1, e2) at h) in
      record {
        mounted_at = mounting.0;
        is_mounted = ensure_mount-Mounted log h2;
        set_at = set_at;
        after_mount = b;
        nfs_set = n;
        synced = try_lem sync_exports set_at h3;
        flushed = try_lem flush_exports (sync_exports ∷ set_at) (rw e3 at (rw (e1, e2) at h));
        is_final = rw (e1, e2) (ap (λ (r : Log × Option String). r.0) e3);
      }
