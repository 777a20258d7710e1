-- ===== src/ShareAgent/Examples.antt =====
-- A share with NFS and SMB on the node "a": served from a blank device, and torn down in vain.
use stornas.Base.{
  ◌≡◌, refl, ◌≢◌, Bool, true, false, some, List, [], ◌∷◌, map, ◌==◌, if◌then◌else◌, ◌<>◌, here,
  join,
}
use stornas.Kube.{found, get_not_found, items, written, teardown_finalizer}
use stornas.Kube.Concrete.{concrete}
use stornas.Share.{Share, Replies, pending}
use stornas.Host.{Command, Runner, ran, run_failed, unless_failed}
use stornas.Host.Growth.{Grows}
use stornas.ShareAgent.{
  ShareManager, ensure_share, ensure_mount, unmount_other, after_unmount, mount_unless, make_mount,
  format_device, format_blank, relabel, export_nfs, reexport, remove_share, is_present,
  present_exports, apply_samba, samba_text, section_of, sort_shares, insert_share, newline, tab,
}
use stornas.ShareAgent.Formats.{Allowed, ensure_share-Grows}
use stornas.ShareAgent.Pass.{
  Reads, apply_listed, tear_down, tear_down_if, tear_down_present, reconcile_deleting, serve,
  reconcile_elsewhere, reconcile_gone, with_host_status, report, reconcile_here, reconcile_live,
  reconcile_found, reconcile,
}
use stornas.ShareAgent.Pass.Ready.{IsReady, host_ready-IsReady}
use stornas.Samples.{meta_of, cluster_reader}
use stornas.Strings.{trim_space}

agent_runs : Unit {0}
unfolding trim_space ensure_share ensure_mount unmount_other after_unmount mount_unless make_mount
    format_device format_blank relabel export_nfs reexport remove_share is_present present_exports
    apply_samba samba_text section_of sort_shares insert_share apply_listed tear_down tear_down_if
    tear_down_present reconcile_deleting serve reconcile_elsewhere reconcile_gone with_host_status
    report reconcile_here reconcile_live reconcile_found reconcile unless_failed
agent_runs = tt

abbrev media : Bool → Share
media deleting = record {
  meta = meta_of "media" deleting [];
  spec = record {
    claim_name = "data";
    nfs = some (record { clients = "10.0.0.0/8(rw)" ∷ [] });
    smb = some (record { name = ""; valid_users = "bob" ∷ [] });
  };
  status = record { conditions = []; node = "a"; device = "/dev/drbd1000"; state = pending };
}

abbrev manager : ShareManager
manager = record { node = "a"; root = "/host" }

-- Nothing is mounted and the device is blank; and a host where no command but `os.Stat` succeeds.
abbrev host : Runner
host log c = if c.name == "findmnt" then run_failed "" "exit 1" else ran ""

abbrev stuck_host : Runner
stuck_host log c = if c.name == "os.Stat" then ran "" else run_failed "target is busy" "exit 32"

abbrev reads_of : Share → Reads
reads_of s = record { get_share = found s; list_shares = items (s ∷ []); update_status = written }

ensure_share-Grows_example :
    Grows (Allowed host manager (media false)) [] (ensure_share host manager (media false) []).0
ensure_share-Grows_example = ensure_share-Grows host manager (media false) []

-- The names of the commands, the last one first.
serves_blank_device :
    map Command.name (ensure_share host manager (media false) []).0
    ≡ "exportfs" ∷ "exportfs" ∷ "os.WriteFile" ∷ "restorecon" ∷ "mount" ∷ "os.MkdirAll" ∷ "mkfs.xfs"
      ∷ "blkid" ∷ "findmnt" ∷ []
unfolding agent_runs
serves_blank_device = refl

samba_of_media :
    samba_text "a" (media false ∷ media true ∷ [])
    ≡ "[media]" <> newline <> tab <> "path = /var/lib/stornas/shares/nas-media" <> newline <> tab
      <> "read only = no" <> newline <> tab <> "force user = root" <> newline <> tab
      <> "valid users = bob" <> newline <> newline
unfolding agent_runs join
samba_of_media = refl

abbrev first_or : Share → List Share → Share
first_or s [] = s
first_or s (w ∷ ws) = w

abbrev reported : Share
reported =
    first_or (media false)
      (reconcile concrete host manager "stornas" "media" (reads_of (media false)) []).writes

host_ready-IsReady_example :
    ((media false).status.node ≡ manager.node)
    × ((media false).status.device ≢ "")
    × IsReady host manager
        (media false)
        (items (media false ∷ []))
        []
        (reconcile concrete host manager "stornas" "media" (reads_of (media false)) []).log
unfolding agent_runs
host_ready-IsReady_example =
    host_ready-IsReady concrete host manager "stornas" "media" (media false) reported
      (reads_of (media false)) [] refl refl (here refl) refl

abbrev operator_reads : Replies
operator_reads = record {
  get_share = get_not_found;
  reader = cluster_reader;
  list_nodes = items [];
  get_node = λ n. get_not_found;
  update = written;
  update_status = written;
}

abbrev doomed : Share
doomed = record (media true) {
  meta = record (meta_of "media" true []) { finalizers = teardown_finalizer ∷ [] };
}
