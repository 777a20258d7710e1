-- ===== src/Lio/Examples.antt =====
-- A target with an initiator that may enter, one whose Secret is absent, and one that was dropped.
use stornas.Base.{
  String, refl, none, some, List, [], ◌∷◌, map, ◌==◌, if◌then◌else◌, here, there, contains, decimal,
}
use stornas.Host.{Command, Log, Runner, ran, run_failed, unless_failed}
use stornas.Host.Growth.{Grows, Before}
use stornas.Strings.{fields, split_by, lines, has_text, has_prefix, after_text}
use stornas.Vip.{IpJson, release_vip, release_recorded}
use stornas.Lio.{
  Credentials, backstore, delete_block, ensure, ensure_lun, ensure_luns, redacted, set_credential,
  grant, grant_all, revoke, revoke_each, revoke_listed, prune_acls, prune_lines, prune_listed,
  prune_luns, ensure_grants, ensure_address, ensure_rest, ensure_target, delete_blocks,
  delete_listed, remove_target, auth_of, granted_of, parse_fields, parse_lun_line,
}
use stornas.Lio.Allows.{Allowed, ensure_target-Grows}
use stornas.Lio.Closed.{IsClosed, ensure_target-IsClosed}
use stornas.Lio.Shared.{extended, remove_target_takes_foreign}
use stornas.Samples.{exported_db}

unfoldable pub lio_runs : Unit {0}
unfolding fields split_by lines has_text has_prefix after_text unless_failed release_vip
    release_recorded decimal ensure ensure_lun ensure_luns redacted set_credential grant grant_all
    revoke revoke_each revoke_listed prune_acls prune_lines prune_listed prune_luns ensure_grants
    ensure_address ensure_rest ensure_target delete_blocks delete_listed remove_target auth_of
    granted_of parse_fields parse_lun_line
lio_runs = tt

abbrev no_ip : IpJson
no_ip = record { links = λ s. none; routes = λ s. none }

abbrev credentials : Credentials
credentials iqn = if iqn == "iqn.x" then some (record { user = "u"; password = "pw" }) else none

-- The host has the ACLs of both initiators and of one that the spec has dropped.
abbrev host : Runner
host log c =
    if contains "/iscsi/iqn.2026-08.io.stornas:db/tpg1/acls" c.args
    then ran "o- acls ... o- iqn.x ... o- iqn.y ... o- iqn.z"
    else ran ""

ensure_target-Grows_example :
    Grows
      (Allowed (exported_db "/dev/drbd1000") credentials)
      []
      (ensure_target host no_ip "" (exported_db "/dev/drbd1000") credentials []).0
ensure_target-Grows_example =
    ensure_target-Grows (exported_db "/dev/drbd1000") credentials host no_ip "" []

ensure_target-IsClosed_example :
    IsClosed host
      (exported_db "/dev/drbd1000")
      credentials
      []
      (ensure_target host no_ip "" (exported_db "/dev/drbd1000") credentials []).0
unfolding lio_runs
ensure_target-IsClosed_example =
    ensure_target-IsClosed host (exported_db "/dev/drbd1000") credentials no_ip "" [] refl

-- What the walk does: the ACLs of the other two go.
walk : List (List String)
unfolding lio_runs
walk = map Command.args (ensure_target host no_ip "" (exported_db "/dev/drbd1000") credentials []).0

-- The host has a backstore of the target "db-lun1".
abbrev shared_host : Runner
shared_host log c =
    if contains "/backstores/block" c.args
    then ran "o- block ... stornas-db-lun1-lun0"
    else run_failed "" "exit 1"

remove_target_takes_foreign_example :
    (l : Log) × Before
      (delete_block (backstore (extended "db" "1") 0) ∷ l)
      (remove_target shared_host no_ip "" "db" [])
unfolding lio_runs
remove_target_takes_foreign_example =
    remove_target_takes_foreign no_ip shared_host "" "db" "1" "o- block ... stornas-db-lun1-lun0" 0
      [] refl (there (there (there (here refl))))
