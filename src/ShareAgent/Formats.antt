-- ===== src/ShareAgent/Formats.antt =====
-- Which commands `EnsureShare` of internal/agent/share.go may run: it formats, mounts and unmounts
-- no device that it has not looked at.
use stornas.Base.{
  String, ◌≡◌, refl, ◌∙◌, ◌≢◌, inl, inr, true, Option, none, some, ◌∷◌, ◌==◌, ◌<>◌, Bool-cases,
  eq_of_test, ne_of_test, join,
}
use stornas.Share.{Share, NfsExport}
use stornas.Host.{
  Command, Reply, ran, run_failed, Log, Runner, try, succeeds, unless_failed, write_file,
  remove_file, make_dirs, error_of,
}
use stornas.Host.Growth.{Grows, same, more, Grows-trans, Grows-unless_failed, succeeds-error_of}
use stornas.Strings.{trim_space}
use stornas.ShareAgent.{
  ShareManager, findmnt, umount, blkid, mkfs, mount, restorecon, sync_exports, flush_exports,
  output, Mount, mounted, not_mounted, unmount_failed, after_unmount, unmount_other, format_blank,
  format_device, relabel, make_mount, mount_unless, ensure_mount, export_nfs, reexport,
  ensure_share,
}

abbrev pub mount_of : Share → String
mount_of s = "/var/lib/stornas/shares/" <> s.meta.namespace <> "-" <> s.meta.name

abbrev pub exports_of : ShareManager → Share → String
exports_of m s =
    m.root <> "/etc/exports.d/stornas-" <> s.meta.namespace <> "-" <> s.meta.name <> ".exports"

module _ (run : Runner) (m : ShareManager) (s : Share) where
  -- The device carries xfs: `blkid` said so; or `blkid` printed nothing, and then `mkfs.xfs`
  -- succeeded.
  pub data HasXfs : Log → Type 0 where
    was_xfs :
        (log : Log)
        → trim_space (output (run log (blkid s.status.device))) ≡ "xfs"
        → HasXfs (blkid s.status.device ∷ log)
    was_blank :
        (log : Log)
        → trim_space (output (run log (blkid s.status.device))) ≡ ""
        → succeeds (run (blkid s.status.device ∷ log) (mkfs s.status.device)) ≡ true
        → HasXfs (mkfs s.status.device ∷ blkid s.status.device ∷ log)

  -- After the commands of a log, the next one only looks; or it unmounts the share's directory, where
  -- the very command before it saw another device; or it formats the share's device, where the very
  -- command before it printed no type of contents; or it mounts the device, which carries xfs; or it
  -- is about the directory and the exports of the share.
  pub data Allowed : Log → Command → Type 0 where
    looks_mount : (log : Log) → Allowed log (findmnt (mount_of s))
    looks_type : (log : Log) → Allowed log (blkid s.status.device)
    unmounts :
        (log : Log) (src : String)
        → run log (findmnt (mount_of s)) ≡ ran src
        → trim_space src ≢ s.status.device
        → Allowed (findmnt (mount_of s) ∷ log) (umount (mount_of s))
    formats :
        (log : Log)
        → trim_space (output (run log (blkid s.status.device))) ≡ ""
        → Allowed (blkid s.status.device ∷ log) (mkfs s.status.device)
    makes_dir : (log : Log) → Allowed log (make_dirs (m.root <> mount_of s))
    mounts :
        (log : Log)
        → HasXfs log
        → Allowed (make_dirs (m.root <> mount_of s) ∷ log) (mount s.status.device (mount_of s))
    relabels : (log : Log) → Allowed log (restorecon (mount_of s))
    writes_exports :
        (log : Log) (nfs : NfsExport)
        → s.spec.nfs ≡ some nfs
        → Allowed log
            (write_file (exports_of m s) (mount_of s <> " " <> join " " nfs.clients <> "\n"))
    removes_exports : (log : Log) → s.spec.nfs ≡ none → Allowed log (remove_file (exports_of m s))
    syncs : (log : Log) → Allowed log sync_exports
    flushes : (log : Log) → Allowed log flush_exports

  abbrev pub Does : Log → Log → Type 0
  Does = Grows Allowed

  relabel-Does : (l : Log) → Does l (relabel run (mount_of s) l).0
  unfolding relabel
  relabel-Does l = more same (relabels l)

  -- Once the device carries xfs.
  after_dir :
      (log l : Log) (o : Option String)
      → Does log l
      → HasXfs l
      → Does log
          (unless_failed
            (unless_failed
              (make_dirs (m.root <> mount_of s) ∷ l, o)
              (try run (mount s.status.device (mount_of s))))
            (relabel run (mount_of s))).0
  unfolding unless_failed
  after_dir log l (some e) g x = more g (makes_dir l)
  after_dir log l none g x =
      Grows-unless_failed log _ (relabel run (mount_of s))
        (more (more g (makes_dir l)) (mounts l x)) relabel-Does

  formatted-Does :
      (log : Log) (r : Log × Option String)
      → Does log r.0
      → (r.1 ≡ none → HasXfs r.0)
      → Does log
          (unless_failed
            (unless_failed
              (unless_failed r (try run (make_dirs (m.root <> mount_of s))))
              (try run (mount s.status.device (mount_of s))))
            (relabel run (mount_of s))).0
  unfolding unless_failed
  formatted-Does log (l, some e) g x = g
  formatted-Does log (l, none) g x =
      after_dir log l (error_of (run l (make_dirs (m.root <> mount_of s)))) g (x refl)

  -- The device is only formatted when `blkid` printed nothing, and else it carries xfs or there is an
  -- error.
  pub format_blank-Does :
      (log : Log) (t : String)
      → trim_space (output (run log (blkid s.status.device))) ≡ t
      → let r = format_blank run s.status.device t (blkid s.status.device ∷ log) in
        Does log r.0 × (r.1 ≡ none → HasXfs r.0)
  unfolding format_blank
  format_blank-Does log t e = elim (Bool-cases (t == "")) [
    | inl b ↦
        rw (b, format_blank)
          (
            more (more same (looks_type log)) (formats log (e ∙ eq_of_test t "" b)),
            λ h. was_blank log (e ∙ eq_of_test t "" b) (succeeds-error_of _ h),
          )
    | inr b ↦ elim (Bool-cases (t == "xfs")) [
      | inl x ↦
          rw (b, x, format_blank)
            (more same (looks_type log), λ h. was_xfs log (e ∙ eq_of_test t "xfs" x))
      | inr x ↦ rw (b, x, format_blank) (more same (looks_type log), λ h. absurd (cc))
    ]
  ]

  make_mount-Does :
      (log : Log) → Does log (make_mount run m.root s.status.device (mount_of s) log).0
  unfolding make_mount format_device
  make_mount-Does log = let (g, x) = format_blank-Does log _ refl in formatted-Does log _ g x

  mount_unless-Does :
      (log : Log) (r : Log × Mount)
      → Does log r.0
      → Does log (mount_unless run m.root s.status.device (mount_of s) r).0
  unfolding mount_unless
  mount_unless-Does log (l, mounted) g = g
  mount_unless-Does log (l, unmount_failed e) g = g
  mount_unless-Does log (l, not_mounted) g = Grows-trans log l _ g (make_mount-Does l)

  after_unmount-log : (r : Log × Option String) → (after_unmount run r).0 ≡ r.0
  unfolding after_unmount
  after_unmount-log (l, none) = refl
  after_unmount-log (l, some e) = refl

  unmount_other-Does :
      (log : Log) (r : Reply)
      → run log (findmnt (mount_of s)) ≡ r
      → Does log (unmount_other run s.status.device (mount_of s) (findmnt (mount_of s) ∷ log, r)).0
  unfolding unmount_other
  unmount_other-Does log (run_failed out e) h = more same (looks_mount log)
  unmount_other-Does log (ran src) h = elim (Bool-cases (trim_space src == s.status.device)) [
    | inl e ↦ rw (e, unmount_other) (more same (looks_mount log))
    | inr e ↦
        rw (e, unmount_other)
          (rw (after_unmount-log (try run (umount (mount_of s)) (findmnt (mount_of s) ∷ log)))
            (more (more same (looks_mount log)) (unmounts log src h (ne_of_test _ _ e))))
  ]

  export_nfs-Does :
      (nfs : Option NfsExport) (log : Log)
      → s.spec.nfs ≡ nfs
      → Does log (export_nfs run (exports_of m s) (mount_of s) nfs log).0
  unfolding export_nfs
  export_nfs-Does (some nfs) log e = more same (writes_exports log nfs e)
  export_nfs-Does none log e = more same (removes_exports log e)

  reexport-Does : (log : Log) → Does log (reexport run log).0
  unfolding reexport
  reexport-Does log =
      Grows-unless_failed log _ (try run flush_exports) (more same (syncs log))
        (λ l. more same (flushes l))

  -- `EnsureShare`, whatever the host answers and wherever it stops, runs only these commands. It
  -- formats a device only right after `blkid` printed no type of contents for it; mounts it only once
  -- it carries xfs; and unmounts the share's directory only right after another device was seen there.
  -- The exports file of this share it removes only where the spec has no NFS, and else it writes one
  -- line there, which exports the share's directory to the clients of the spec. Besides, it looks,
  -- makes and labels the directory, and makes the exports take effect.
  pub ensure_share-Grows : (log : Log) → Grows Allowed log (ensure_share run m s log).0
  unfolding ensure_share ensure_mount
  ensure_share-Grows log =
      Grows-unless_failed log _ (reexport run)
        (Grows-unless_failed log _ (export_nfs run (exports_of m s) (mount_of s) s.spec.nfs)
          (mount_unless-Does log _ (unmount_other-Does log (run log (findmnt (mount_of s))) refl))
          (λ l. export_nfs-Does s.spec.nfs l refl))
        reexport-Does
