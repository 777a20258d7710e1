-- ===== src/Lio/Commands.antt =====
-- What the commands of internal/agent/lio.go are to be, word for word, and what authentication they
-- are to set.
use stornas.Base.{String, [], ◌∷◌, ◌<>◌}
use stornas.Chap.{ChapCred}
use stornas.Target.{Target}
use stornas.Host.{command, Command}

abbrev pub group_of : Target → String
group_of t = "/iscsi/" <> t.status.iqn <> "/tpg1"

abbrev pub admits : Target → String → Command
admits t iqn = command "targetcli" ((group_of t <> "/acls") ∷ "create" ∷ iqn ∷ [])

abbrev pub gives : Target → String → ChapCred → Command
gives t iqn cred = command "targetcli" (
    ((group_of t <> "/acls") <> "/" <> iqn)
    ∷ "set"
    ∷ "auth"
    ∷ ("userid=" <> cred.user)
    ∷ ("password=" <> cred.password)
    ∷ [])

abbrev pub asks_auth : Target → String → Command
asks_auth t auth =
    command "targetcli"
      (group_of t ∷ "set" ∷ "attribute" ∷ ("authentication=" <> auth) ∷ "generate_node_acls=0" ∷ [])

abbrev pub shows_acls : Target → Command
shows_acls t = command "targetcli" ("ls" ∷ (group_of t <> "/acls") ∷ "1" ∷ [])

abbrev pub expels : Target → String → Command
expels t iqn = command "targetcli" ((group_of t <> "/acls") ∷ "delete" ∷ iqn ∷ [])

abbrev pub drops_block : String → Command
drops_block bs = command "targetcli" ("/backstores/block" ∷ "delete" ∷ bs ∷ [])
