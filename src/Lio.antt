-- ===== src/Lio.antt =====
-- internal/agent/lio.go: the export of a target by targetcli, its grants to initiators, and its
-- teardown. The virtual address is that of Vip.
pub mod Granted
pub mod Commands
pub mod Allows
pub mod Closed
pub mod Shared
pub mod Examples
use stornas.Base.{
  ℕ, String, Bool, true, false, not, ◌&&◌, ◌||◌, Option, none, some, List, [], ◌∷◌, map, ◌==◌,
  if◌then◌else◌, ◌<>◌, any, select, contains, decimal,
}
use stornas.Kube.{iqn_prefix}
use stornas.Chap.{ChapCred}
use stornas.Target.{Target, Initiator, LunStatus}
use stornas.Host.{
  command, Command, Reply, ran, run_failed, Log, Runner, unless, try, succeeds, unless_failed,
}
use stornas.Strings.{fields, lines, has_text, has_prefix, after_text, replace_all}
use stornas.Vip.{IpJson, ensure_vip, drop_vip, release_vip}

abbrev pub targetcli : List String → Command
targetcli args = command "targetcli" args

abbrev pub backstore : String → ℕ → String
backstore target id = "stornas-" <> target <> "-lun" <> decimal id

-- The paths of the tree of targetcli.
abbrev pub portal_group : String → String
portal_group iqn = "/iscsi/" <> iqn <> "/tpg1"

abbrev pub acls_of : String → String
acls_of iqn = portal_group iqn <> "/acls"

abbrev pub luns_of : String → String
luns_of iqn = portal_group iqn <> "/luns"

abbrev pub blocks : String
blocks = "/backstores/block"

abbrev pub create_acl : String → String → Command
create_acl iqn ini = targetcli (acls_of iqn ∷ "create" ∷ ini ∷ [])

abbrev pub set_auth : String → String → ChapCred → Command
set_auth iqn ini cred = targetcli (
    (acls_of iqn <> "/" <> ini)
    ∷ "set"
    ∷ "auth"
    ∷ ("userid=" <> cred.user)
    ∷ ("password=" <> cred.password)
    ∷ [])

abbrev pub set_attribute : String → String → Command
set_attribute iqn auth = targetcli (
    portal_group iqn
    ∷ "set"
    ∷ "attribute"
    ∷ ("authentication=" <> auth)
    ∷ "generate_node_acls=0"
    ∷ [])

abbrev pub list_acls : String → Command
list_acls iqn = targetcli ("ls" ∷ acls_of iqn ∷ "1" ∷ [])

abbrev pub delete_acl : String → String → Command
delete_acl iqn ini = targetcli (acls_of iqn ∷ "delete" ∷ ini ∷ [])

abbrev pub list_luns : String → Command
list_luns iqn = targetcli ("ls" ∷ luns_of iqn ∷ "1" ∷ [])

abbrev pub delete_lun : String → String → Command
delete_lun iqn lun = targetcli (luns_of iqn ∷ "delete" ∷ lun ∷ [])

abbrev pub delete_block : String → Command
delete_block bs = targetcli (blocks ∷ "delete" ∷ bs ∷ [])

abbrev pub save_config : Command
save_config = targetcli ("saveconfig" ∷ [])

-- The error says that the object exists; the guard is that both phrasings hold "exist".
abbrev pub exists_already : String → String → Bool
exists_already out e = not (has_text (e <> out) "not exist") && has_text (e <> out) "exists"

abbrev pub is_absent : String → String → Bool
is_absent out e = has_text (e <> out) "No such"

-- The credentials that the reconciler resolved, by the IQN of the initiator.
abbrev pub Credentials : Type 0
Credentials = String → Option ChapCred

-- The initiator wants CHAP and has no usable credential.
abbrev pub lacks_credential : Initiator → Option ChapCred → Bool
lacks_credential ini none = not (ini.chap_secret_ref == "")
lacks_credential ini (some cred) = false

-- `auth` and `granted`, after the loop over the initiators.
unfoldable pub auth_of : List Initiator → String
auth_of inis = if any (λ (i : Initiator). not (i.chap_secret_ref == "")) inis then "1" else "0"

unfoldable pub granted_of : Credentials → List Initiator → List String
granted_of chap inis =
    map Initiator.iqn (select (λ (i : Initiator). not (lacks_credential i (chap i.iqn))) inis)

-- `parseLUNLine`: the name of the LUN and its backstore.
abbrev pub lun_of_field : String → String → String
lun_of_field lun f = if lun == "" && not (f == "luns") && has_prefix f "lun" then f else lun

abbrev pub block_of_field : String → Option String → String
block_of_field bs none = bs
block_of_field bs (some b) = b

unfoldable pub parse_fields : String → String → List String → String × String
parse_fields lun bs [] = (lun, bs)
parse_fields lun bs (f ∷ fs) =
    parse_fields (lun_of_field lun f) (block_of_field bs (after_text f "block/")) fs

unfoldable pub parse_lun_line : String → String × String
parse_lun_line line = parse_fields "" "" (fields line)

module _ (run : Runner) where
  -- `ensure` and `remove`.
  unfoldable pub ensure : List String → Log → Log × Option String
  ensure args log = (targetcli args ∷ log, unless exists_already (run log (targetcli args)))

  unfoldable pub ensure_lun : Target → LunStatus → Log → Log × Option String
  ensure_lun t lun log =
      let bs = backstore t.meta.name lun.id in
      unless_failed (ensure (blocks ∷ "create" ∷ ("name=" <> bs) ∷ ("dev=" <> lun.device) ∷ []) log)
        (ensure (luns_of t.status.iqn ∷ "create" ∷ (blocks <> "/" <> bs) ∷ []))

  unfoldable pub ensure_luns : Target → List LunStatus → Log → Log × Option String
  ensure_luns t [] log = (log, none)
  ensure_luns t (lun ∷ luns) log = unless_failed (ensure_lun t lun log) (ensure_luns t luns)

  unfoldable pub redacted : String → Reply → Option String
  redacted password (ran out) = none
  redacted password (run_failed out e) = some (replace_all e password "<redacted>")

  unfoldable pub set_credential : String → String → Option ChapCred → Log → Log × Option String
  set_credential iqn ini none log = (log, none)
  set_credential iqn ini (some cred) log =
      (set_auth iqn ini cred ∷ log, redacted cred.password (run log (set_auth iqn ini cred)))

  unfoldable pub grant : String → Initiator → Option ChapCred → Log → Log × Option String
  grant iqn ini cred log =
      unless_failed (ensure (acls_of iqn ∷ "create" ∷ ini.iqn ∷ []) log)
        (set_credential iqn ini.iqn cred)

  -- The loop over the initiators.
  unfoldable pub grant_all : String → Credentials → List Initiator → Log → Log × Option String
  grant_all iqn chap [] log = (log, none)
  grant_all iqn chap (ini ∷ inis) log = elim (lacks_credential ini (chap ini.iqn)) [
    | true ↦ grant_all iqn chap inis log
    | false ↦ unless_failed (grant iqn ini (chap ini.iqn) log) (grant_all iqn chap inis)
  ]

  unfoldable pub revoke : String → String → Log → Log × Option String
  revoke iqn ini log = (delete_acl iqn ini ∷ log, unless is_absent (run log (delete_acl iqn ini)))

  unfoldable pub revoke_each : String → List String → List String → Log → Log × Option String
  revoke_each iqn granted [] log = (log, none)
  revoke_each iqn granted (f ∷ fs) log = elim (not (has_prefix f "iqn.") || contains f granted) [
    | true ↦ revoke_each iqn granted fs log
    | false ↦ unless_failed (revoke iqn f log) (revoke_each iqn granted fs)
  ]

  unfoldable pub revoke_listed : String → List String → Log × Reply → Log × Option String
  revoke_listed iqn granted (log, run_failed out e) = (log, some e)
  revoke_listed iqn granted (log, ran out) = revoke_each iqn granted (fields out) log

  -- `pruneACLs`.
  unfoldable pub prune_acls : String → List String → Log → Log × Option String
  prune_acls iqn granted log =
      revoke_listed iqn granted (list_acls iqn ∷ log, run log (list_acls iqn))

  -- A LUN whose backstore is of this target and not wanted.
  abbrev pub is_stale : String → List String → String × String → Bool
  is_stale prefix want (lun, bs) = not (lun == "") && has_prefix bs prefix && not (contains bs want)

  unfoldable pub prune_lines : String → String → List String → List String → Log → Log
  prune_lines iqn prefix want [] log = log
  prune_lines iqn prefix want (line ∷ rest) log =
      let (lun, bs) = parse_lun_line line in
      elim (is_stale prefix want (lun, bs)) [
        | true ↦ prune_lines iqn prefix want rest (delete_block bs ∷ delete_lun iqn lun ∷ log)
        | false ↦ prune_lines iqn prefix want rest log
      ]

  unfoldable pub prune_listed : Target → Log × Reply → Log
  prune_listed t (log, run_failed out e) = log
  prune_listed t (log, ran out) =
      prune_lines t.status.iqn ("stornas-" <> t.meta.name <> "-lun")
        (map (λ (l : LunStatus). backstore t.meta.name l.id) t.status.luns) (lines out) log

  -- `pruneLUNs`, whose errors are printed only.
  unfoldable pub prune_luns : Target → Log → Log
  prune_luns t log = prune_listed t (list_luns t.status.iqn ∷ log, run log (list_luns t.status.iqn))

  -- The grants of `EnsureTarget`: the target, its LUNs, its ACLs and what they rest on.
  unfoldable pub ensure_grants : Target → Credentials → Log → Log × Option String
  ensure_grants t chap log =
      let iqn = t.status.iqn in
      unless_failed
        (unless_failed
          (unless_failed
            (unless_failed (ensure ("/iscsi" ∷ "create" ∷ iqn ∷ []) log)
              (ensure_luns t t.status.luns))
            (grant_all iqn chap t.spec.initiators))
          (try run (set_attribute iqn (auth_of t.spec.initiators))))
        (prune_acls iqn (granted_of chap t.spec.initiators))

  unfoldable pub ensure_address : IpJson → String → Target → Log → Log × Option String
  ensure_address json root t log =
      if t.spec.vip == "" then (log, none) else ensure_vip json run root t.meta.name t.spec.vip log

  -- Its second half: the LUNs that are not wanted go, and the address comes.
  unfoldable pub ensure_rest : IpJson → String → Target → Log → Log × Option String
  ensure_rest json root t log =
      unless_failed (ensure_address json root t (prune_luns t log)) (try run save_config)

  -- `EnsureTarget`.
  unfoldable pub ensure_target : IpJson → String → Target → Credentials → Log → Log × Option String
  ensure_target json root t chap log =
      unless_failed (ensure_grants t chap log) (ensure_rest json root t)

  unfoldable pub delete_blocks : String → List String → Log → Log
  delete_blocks prefix [] log = log
  delete_blocks prefix (f ∷ fs) log =
      delete_blocks prefix fs (if has_prefix f prefix then delete_block f ∷ log else log)

  unfoldable pub delete_listed : String → Log × Reply → Log
  delete_listed name (log, run_failed out e) = log
  delete_listed name (log, ran out) = delete_blocks ("stornas-" <> name <> "-lun") (fields out) log

  -- `RemoveTarget`.
  unfoldable pub remove_target : IpJson → String → String → Log → Log
  remove_target json root name log =
      let list = targetcli ("ls" ∷ blocks ∷ "1" ∷ []) in
      let log' = targetcli ("/iscsi" ∷ "delete" ∷ (iqn_prefix <> name) ∷ []) ∷ log in
      release_vip json run root name (save_config ∷ delete_listed name (list ∷ log', run log' list))

  -- `TeardownTarget`.
  unfoldable pub teardown_target : IpJson → String → String → String → Log → Log
  teardown_target json root name vip log =
      let probe = targetcli ("ls" ∷ ("/iscsi/" <> iqn_prefix <> name) ∷ "1" ∷ []) in
      let log' =
        if succeeds (run log probe)
        then remove_target json root name (probe ∷ log)
        else probe ∷ log in
      release_vip json run root name (if vip == "" then log' else drop_vip json run vip log')
