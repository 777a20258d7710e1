-- ===== src/Vip.antt =====
-- internal/agent/lio.go: the virtual address of a target, its record on the host, and its release.
-- What `json.Unmarshal` makes of the output of `ip -j` is a parameter.
use stornas.Base.{String, Bool, true, false, Option, none, some, List, [], ◌∷◌, if◌then◌else◌, ◌<>◌}
use stornas.Host.{
  command, Command, Reply, ran, run_failed, Log, Runner, succeeds, try, write_file, remove_file,
  make_dirs, read_file,
}
use stornas.Strings.{trim_space, before_text}

-- The names of the interfaces in the output of `ip -j addr`, and those of the routes in that of
-- `ip -j route`; `none` is an error.
pub record IpJson : Type 0 where
  pub links : String → Option (List String)
  pub routes : String → Option (List String)

abbrev pub vip_dir : String
vip_dir = "/var/lib/stornas/vips"

abbrev pub vip_record : String → String → String
vip_record root name = root <> vip_dir <> "/" <> name

abbrev pub show_holders : String → Command
show_holders addr = command "ip" ("-j" ∷ "addr" ∷ "show" ∷ "to" ∷ addr ∷ [])

abbrev pub del_addr : String → String → Command
del_addr vip dev = command "ip" ("addr" ∷ "del" ∷ vip ∷ "dev" ∷ dev ∷ [])

abbrev pub show_default : Command
show_default = command "ip" ("-j" ∷ "route" ∷ "show" ∷ "default" ∷ [])

abbrev pub replace_addr : String → String → Command
replace_addr vip dev = command "ip" ("addr" ∷ "replace" ∷ vip ∷ "dev" ∷ dev ∷ [])

abbrev pub arping : String → String → Command
arping dev addr = command "arping" ("-U" ∷ "-c" ∷ "2" ∷ "-I" ∷ dev ∷ addr ∷ [])

abbrev pub address_of : String → String
address_of vip = before_text vip "/"

abbrev pub or_nothing : Option (List String) → List String
or_nothing none = []
or_nothing (some l) = l

abbrev pub is_empty : List String → Bool
is_empty [] = true
is_empty (x ∷ xs) = false

module _ (json : IpJson) (run : Runner) where
  unfoldable pub holders_of : Reply → List String
  holders_of (run_failed out e) = []
  holders_of (ran out) = or_nothing (json.links out)

  -- `vipHolders`.
  unfoldable pub vip_holders : String → Log → Log × List String
  vip_holders vip log =
      (show_holders (address_of vip) ∷ log, holders_of (run log (show_holders (address_of vip))))

  unfoldable pub del_each : String → Log × List String → Log
  del_each vip (log, []) = log
  del_each vip (log, dev ∷ devs) = del_each vip (del_addr vip dev ∷ log, devs)

  -- `dropVIP`, whose errors are printed only.
  unfoldable pub drop_vip : String → Log → Log
  drop_vip vip log = del_each vip (vip_holders vip log)

  unfoldable pub release_recorded : String → Log → Reply → Log
  release_recorded path log (run_failed out e) = log
  release_recorded path log (ran vip) = remove_file path ∷ drop_vip (trim_space vip) log

  -- `releaseVIP`.
  unfoldable pub release_vip : String → String → Log → Log
  release_vip root name log =
      let path = vip_record root name in
      release_recorded path (read_file path ∷ log) (run log (read_file path))

  -- The record is written if its directory is there; failures are printed only.
  unfoldable pub record_vip : String → String → String → Log → Log
  record_vip root name vip log =
      let dir = make_dirs (root <> vip_dir) in
      if succeeds (run log dir)
      then write_file (vip_record root name) vip ∷ dir ∷ log
      else dir ∷ log

  unfoldable pub announce : String → String → Bool → Log × Option String → Log × Option String
  announce vip dev fresh (log, some e) = (log, some e)
  announce vip dev fresh (log, none) =
      (if fresh then arping dev (address_of vip) ∷ log else log, none)

  unfoldable pub claim_vip :
      String → String → String → String → Log × List String → Log × Option String
  claim_vip root name vip dev (log, holders) =
      announce vip dev (is_empty holders)
        (try run (replace_addr vip dev) (record_vip root name vip log))

  unfoldable pub place_vip : String → String → String → Log → List String → Log × Option String
  place_vip root name vip log [] = (log, some ("no default route to place VIP " <> vip <> " on"))
  place_vip root name vip log (dev ∷ devs) = claim_vip root name vip dev (vip_holders vip log)

  unfoldable pub place_by_route : String → String → String → Log × Reply → Log × Option String
  place_by_route root name vip (log, run_failed out e) = (log, some e)
  place_by_route root name vip (log, ran out) =
      place_vip root name vip log (or_nothing (json.routes out))

  -- `ensureVIP`.
  unfoldable pub ensure_vip : String → String → String → Log → Log × Option String
  ensure_vip root name vip log =
      place_by_route root name vip (show_default ∷ log, run log show_default)
