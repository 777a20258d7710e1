-- ===== src/ShareAgent.antt =====
-- internal/agent/share.go: the mount, the NFS export and the samba include of the shares of a node;
-- and, in the child Pass, internal/agent/share_reconciler.go. `filepath.Join` is a slash between its
-- arguments, since names of Kubernetes objects have none.
pub mod Formats
pub mod Served
pub mod Pass
mod Examples
use stornas.Base.{
  String, Bool, true, false, not, ◌||◌, Option, none, some, List, [], ◌∷◌, ◌==◌, if◌then◌else◌,
  ◌<>◌, join,
}
use Prim.Native.String.{compare}
use text.Mathlib.Text.{is_lt}
use stornas.Share.{Share, NfsExport, SmbExport}
use stornas.Host.{
  command, Command, Reply, ran, run_failed, Log, Runner, unless, try, test, unless_failed,
  write_file, remove_file, make_dirs, stat, not_exist,
}
use stornas.Strings.{trim_space}

abbrev pub newline : String
newline = "\n"

abbrev pub tab : String
tab = "\t"

-- `ShareManager`, but for its runner, which is an argument.
pub record ShareManager : Type 0 where
  pub node : String
  pub root : String

abbrev pub mount_point : String → String → String
mount_point ns name = "/var/lib/stornas/shares/" <> ns <> "-" <> name

abbrev pub exports_file : String → String → String
exports_file ns name = "/etc/exports.d/stornas-" <> ns <> "-" <> name <> ".exports"

abbrev pub samba_shares : String
samba_shares = "/etc/samba/stornas-shares.conf"

abbrev pub findmnt : String → Command
findmnt mnt = command "findmnt" ("-n" ∷ "-o" ∷ "SOURCE" ∷ mnt ∷ [])

abbrev pub umount : String → Command
umount mnt = command "umount" (mnt ∷ [])

abbrev pub blkid : String → Command
blkid dev = command "blkid" ("-o" ∷ "value" ∷ "-s" ∷ "TYPE" ∷ dev ∷ [])

abbrev pub mkfs : String → Command
mkfs dev = command "mkfs.xfs" (dev ∷ [])

abbrev pub mount : String → String → Command
mount dev mnt = command "mount" ("-t" ∷ "xfs" ∷ dev ∷ mnt ∷ [])

abbrev pub restorecon : String → Command
restorecon mnt = command "restorecon" ("-RF" ∷ mnt ∷ [])

abbrev pub sync_exports : Command
sync_exports = command "exportfs" ("-ra" ∷ [])

abbrev pub flush_exports : Command
flush_exports = command "exportfs" ("-f" ∷ [])

abbrev pub reload_samba : Command
reload_samba = command "smbcontrol" ("all" ∷ "reload-config" ∷ [])

abbrev pub output : Reply → String
output (ran out) = out
output (run_failed out e) = out

-- What is known of the mount: the device is mounted; nothing is; another device could not be
-- unmounted.
pub data Mount : Type 0 where
  mounted not_mounted : Mount
  unmount_failed : String → Mount

-- The line of the exports file.
abbrev pub export_line : String → NfsExport → String
export_line mnt nfs = mnt <> " " <> join " " nfs.clients <> newline

abbrev pub is_missing : String → String → Bool
is_missing out e = out == not_exist

module _ (run : Runner) where
  unfoldable pub after_unmount : Log × Option String → Log × Mount
  after_unmount (log, none) = (log, not_mounted)
  after_unmount (log, some e) = (log, unmount_failed e)

  -- A mount of another device goes.
  unfoldable pub unmount_other : String → String → Log × Reply → Log × Mount
  unmount_other dev mnt (log, run_failed out e) = (log, not_mounted)
  unmount_other dev mnt (log, ran src) = elim (trim_space src == dev) [
    | true ↦ (log, mounted)
    | false ↦ after_unmount (try run (umount mnt) log)
  ]

  unfoldable pub format_blank : String → String → Log → Log × Option String
  format_blank dev fstype log =
      if fstype == ""
      then try run (mkfs dev) log
      else if fstype == "xfs"
      then (log, none)
      else (log, some ("device " <> dev <> " carries " <> fstype <> ", refusing to mount as xfs"))

  -- What `blkid` prints decides, whether or not it fails.
  unfoldable pub format_device : String → Log → Log × Option String
  format_device dev log =
      format_blank dev (trim_space (output (run log (blkid dev)))) (blkid dev ∷ log)

  unfoldable pub relabel : String → Log → Log × Option String
  relabel mnt log = (restorecon mnt ∷ log, none)

  unfoldable pub make_mount : String → String → String → Log → Log × Option String
  make_mount root dev mnt log =
      unless_failed
        (unless_failed (unless_failed (format_device dev log) (try run (make_dirs (root <> mnt))))
          (try run (mount dev mnt)))
        (relabel mnt)

  unfoldable pub mount_unless : String → String → String → Log × Mount → Log × Option String
  mount_unless root dev mnt (log, mounted) = (log, none)
  mount_unless root dev mnt (log, unmount_failed e) = (log, some e)
  mount_unless root dev mnt (log, not_mounted) = make_mount root dev mnt log

  -- The first half of `EnsureShare`.
  unfoldable pub ensure_mount : String → String → String → Log → Log × Option String
  ensure_mount root dev mnt log =
      mount_unless root dev mnt (unmount_other dev mnt (findmnt mnt ∷ log, run log (findmnt mnt)))

  -- A file that is absent counts as removed.
  unfoldable pub export_nfs : String → String → Option NfsExport → Log → Log × Option String
  export_nfs path mnt (some nfs) log = try run (write_file path (export_line mnt nfs)) log
  export_nfs path mnt none log =
      (remove_file path ∷ log, unless is_missing (run log (remove_file path)))

  unfoldable pub reexport : Log → Log × Option String
  reexport log = unless_failed (try run sync_exports log) (try run flush_exports)

  -- `EnsureShare`.
  unfoldable pub ensure_share : ShareManager → Share → Log → Log × Option String
  ensure_share m s log =
      let mnt = mount_point s.meta.namespace s.meta.name in
      let path = m.root <> exports_file s.meta.namespace s.meta.name in
      unless_failed
        (unless_failed (ensure_mount m.root s.status.device mnt log)
          (export_nfs path mnt s.spec.nfs))
        reexport

  unfoldable pub present_exports : ShareManager → String → String → Log × Bool → Log × Bool
  present_exports m ns name (log, true) = (log, true)
  present_exports m ns name (log, false) = test run (stat (m.root <> exports_file ns name)) log

  -- `Present`.
  unfoldable pub is_present : ShareManager → String → String → Log → Log × Bool
  is_present m ns name log =
      present_exports m ns name (test run (stat (m.root <> mount_point ns name)) log)

  -- `RemoveShare`, whose errors are printed only.
  unfoldable pub remove_share : ShareManager → String → String → Log → Log
  remove_share m ns name log =
      remove_file (m.root <> mount_point ns name)
      ∷ umount (mount_point ns name)
      ∷ (reexport (remove_file (m.root <> exports_file ns name) ∷ log)).0

-- The order of `sort.Slice`.
abbrev pub sort_key : Share → String
sort_key s = s.meta.namespace <> "/" <> s.meta.name

unfoldable pub insert_share : Share → List Share → List Share
insert_share s [] = s ∷ []
insert_share s (t ∷ ts) =
    let rest = insert_share s ts in
    if is_lt (compare (sort_key t) (sort_key s)) then t ∷ rest else s ∷ t ∷ ts

unfoldable pub sort_shares : List Share → List Share
sort_shares [] = []
sort_shares (s ∷ ss) = insert_share s (sort_shares ss)

abbrev pub samba_name : Share → SmbExport → String
samba_name s smb = if smb.name == "" then s.meta.name else smb.name

abbrev pub user_line : List String → String
user_line [] = ""
user_line (u ∷ us) = tab <> "valid users = " <> join " " (u ∷ us) <> newline

abbrev pub samba_section : Share → SmbExport → String
samba_section s smb =
    "["
    <> samba_name s smb
    <> "]"
    <> newline
    <> tab
    <> "path = "
    <> mount_point s.meta.namespace s.meta.name
    <> newline
    <> tab
    <> "read only = no"
    <> newline
    <> tab
    <> "force user = root"
    <> newline
    <> user_line smb.valid_users
    <> newline

-- The section of one share; nothing for one that is not placed here or is being deleted.
unfoldable pub section_of : String → Share → Option SmbExport → String
section_of node s none = ""
section_of node s (some smb) =
    if not (s.status.node == node) || s.meta.deleting then "" else samba_section s smb

unfoldable pub samba_text : String → List Share → String
samba_text node [] = ""
samba_text node (s ∷ ss) = section_of node s s.spec.smb <> samba_text node ss

-- `ApplySamba`.
unfoldable pub apply_samba : Runner → ShareManager → List Share → Log → Log × Option String
apply_samba run m shares log =
    unless_failed
      (try run (write_file (m.root <> samba_shares) (samba_text m.node (sort_shares shares))) log)
      (try run reload_samba)
