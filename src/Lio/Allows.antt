-- ===== src/Lio/Allows.antt =====
-- Which commands `EnsureTarget` of internal/agent/lio.go may run.
use stornas.Base.{
  String, ◌≡◌, refl, sym, ◌≢◌, inl, inr, Bool, true, false, not, ◌||◌, Option, none, some, List, [],
  ◌∷◌, map, arith, ◌==◌, ◌<>◌, Bool-cases, In, here, there, contains, if-both, subst, or_false,
}
use stornas.Chap.{ChapCred}
use stornas.Target.{Target, Initiator, LunStatus}
use stornas.Host.{Command, Reply, ran, run_failed, Log, Runner, try, succeeds, unless_failed}
use stornas.Host.Growth.{Grows, same, more, Grows-trans, Grows-unless_failed}
use stornas.Strings.{fields, lines, has_prefix}
use stornas.Vip.{
  IpJson, ensure_vip, place_by_route, place_vip, claim_vip, vip_holders, announce, record_vip,
  or_nothing, show_default, replace_addr, show_holders, address_of,
}
use stornas.Lio.{
  targetcli, blocks, luns_of, backstore, set_attribute, list_acls, list_luns, delete_lun,
  delete_block, save_config, Credentials, lacks_credential, auth_of, granted_of, parse_lun_line,
  ensure, ensure_lun, ensure_luns, set_credential, grant, grant_all, revoke, revoke_each,
  revoke_listed, prune_acls, is_stale, prune_lines, prune_listed, prune_luns, ensure_grants,
  ensure_address, ensure_rest, ensure_target,
}
use stornas.Lio.Commands.{admits, gives, asks_auth, shows_acls, expels, drops_block}
use stornas.Lio.Granted.{MayEnter, IsAuth, auth_of-IsAuth, lacks_ways, MayEnter-granted}

abbrev pub prefix_of : Target → String
prefix_of t = "stornas-" <> t.meta.name <> "-lun"

abbrev pub wanted_of : Target → List String
wanted_of t = map (λ (l : LunStatus). backstore t.meta.name l.id) t.status.luns

module _ (t : Target) (chap : Credentials) where
  -- An ACL is created only for an initiator of the spec that may enter, and given only the credential
  -- that was resolved for it; an ACL is deleted only if its initiator may not enter; a backstore is
  -- deleted only if its name has the prefix of this target and is none of those that the target has;
  -- CHAP is asked for just where an initiator of the spec wants it. What is exported are the devices of
  -- the LUNs in the target's status. What else is done by targetcli creates the target, deletes LUNs of
  -- it, lists, and saves.
  pub data Allowed (log : Log) : Command → Type 0 where
    creates_target : Allowed log (targetcli ("/iscsi" ∷ "create" ∷ t.status.iqn ∷ []))
    creates_block :
        (lun : LunStatus)
        → In lun t.status.luns
        → Allowed log (
            targetcli (
              blocks
              ∷ "create"
              ∷ ("name=" <> backstore t.meta.name lun.id)
              ∷ ("dev=" <> lun.device)
              ∷ []))
    creates_lun :
        (lun : LunStatus)
        → In lun t.status.luns
        → Allowed log (
            targetcli (
              luns_of t.status.iqn
              ∷ "create"
              ∷ (blocks <> "/" <> backstore t.meta.name lun.id)
              ∷ []))
    creates_acl : (iqn : String) → MayEnter t chap iqn → Allowed log (admits t iqn)
    sets_auth :
        (iqn : String) (cred : ChapCred) → chap iqn ≡ some cred → Allowed log (gives t iqn cred)
    sets_attribute :
        (auth : String) → IsAuth t.spec.initiators auth → Allowed log (asks_auth t auth)
    lists_acls : Allowed log (shows_acls t)
    lists_luns : Allowed log (list_luns t.status.iqn)
    deletes_acl :
        (iqn : String)
        → has_prefix iqn "iqn." ≡ true
        → ¬ (MayEnter t chap iqn)
        → Allowed log (expels t iqn)
    deletes_lun : (lun : String) → Allowed log (delete_lun t.status.iqn lun)
    deletes_block :
        (bs : String)
        → has_prefix bs (prefix_of t) ≡ true
        → contains bs (wanted_of t) ≡ false
        → Allowed log (drops_block bs)
    saves : Allowed log save_config
    is_other : (c : Command) → c.name ≢ "targetcli" → Allowed log c

  abbrev Does : Log → Log → Type 0
  Does = Grows Allowed

  module _ (run : Runner) where
    ensure_luns-Does :
        (luns : List LunStatus) (log : Log)
        → ((l : LunStatus) → In l luns → In l t.status.luns)
        → Does log (ensure_luns run t luns log).0
    unfolding ensure_luns ensure_lun ensure
    ensure_luns-Does [] log s = same
    ensure_luns-Does (l ∷ ls) log s =
        Grows-unless_failed log _ (ensure_luns run t ls)
          (Grows-unless_failed log _
            (ensure run (
              luns_of t.status.iqn ∷ "create" ∷ (blocks <> "/" <> backstore t.meta.name l.id) ∷ []))
            (more same (creates_block l (s l (here refl))))
            (λ k. more same (creates_lun l (s l (here refl)))))
          (λ k. ensure_luns-Does ls k (λ x i. s x (there i)))

    set_credential-Does :
        (iqn : String) (cred : Option ChapCred) (log : Log)
        → chap iqn ≡ cred
        → Does log (set_credential run t.status.iqn iqn cred log).0
    unfolding set_credential
    set_credential-Does iqn none log e = same
    set_credential-Does iqn (some cred) log e = more same (sets_auth iqn cred e)

    grant_all-Does :
        (inis : List Initiator) (log : Log)
        → ((i : Initiator) → In i inis → In i t.spec.initiators)
        → Does log (grant_all run t.status.iqn chap inis log).0
    unfolding grant_all grant ensure
    grant_all-Does [] log s = same
    grant_all-Does (ini ∷ inis) log s = elim (Bool-cases (lacks_credential ini (chap ini.iqn))) [
      | inl e ↦ rw (e, grant_all) (grant_all-Does inis log (λ i m. s i (there m)))
      | inr e ↦
          rw (e, grant_all)
            (Grows-unless_failed log _ (grant_all run t.status.iqn chap inis)
              (Grows-unless_failed log _ (set_credential run t.status.iqn ini.iqn (chap ini.iqn))
                (more same (
                  creates_acl ini.iqn
                    (ini, s ini (here refl), refl, lacks_ways ini (chap ini.iqn) e)))
                (λ l. set_credential-Does ini.iqn (chap ini.iqn) l refl))
              (λ l. grant_all-Does inis l (λ i m. s i (there m))))
    ]

    -- The target, its LUNs and its ACLs, up to where CHAP is asked for.
    pub grants-Does :
        (log : Log)
        → Does log
            (unless_failed
              (unless_failed
                (ensure run ("/iscsi" ∷ "create" ∷ t.status.iqn ∷ []) log)
                (ensure_luns run t t.status.luns))
              (grant_all run t.status.iqn chap t.spec.initiators)).0
    unfolding ensure
    grants-Does log =
        Grows-unless_failed log _ (grant_all run t.status.iqn chap t.spec.initiators)
          (Grows-unless_failed log _ (ensure_luns run t t.status.luns) (more same creates_target)
            (λ l. ensure_luns-Does t.status.luns l (λ x i. i)))
          (λ l. grant_all-Does t.spec.initiators l (λ i m. m))

    -- Who is not granted may not enter.
    stranger :
        (f : String)
        → (not (has_prefix f "iqn.") || contains f (granted_of chap t.spec.initiators)) ≡ false
        → (has_prefix f "iqn." ≡ true) × (¬ (MayEnter t chap f))
    stranger f e =
        let (p, n) =
          or_false (not (has_prefix f "iqn.")) (contains f (granted_of chap t.spec.initiators)) e in
        (
          ground arith,
          λ (ini, i, q, w). cc (
            MayEnter-granted chap t.spec.initiators ini i (rw q w),
            subst (λ x. contains x (granted_of chap t.spec.initiators) ≡ false) (sym q) n,
          ),
        )

    revoke_each-Does :
        (fs : List String) (log : Log)
        → Does log (revoke_each run t.status.iqn (granted_of chap t.spec.initiators) fs log).0
    unfolding revoke_each revoke
    revoke_each-Does [] log = same
    revoke_each-Does (f ∷ fs) log =
        elim (Bool-cases
          (not (has_prefix f "iqn.") || contains f (granted_of chap t.spec.initiators))) [
            | inl e ↦ rw (e, revoke_each) (revoke_each-Does fs log)
            | inr e ↦
                let (p, n) = stranger f e in
                rw (e, revoke_each)
                  (Grows-unless_failed log _
                    (revoke_each run t.status.iqn (granted_of chap t.spec.initiators) fs)
                    (more same (deletes_acl f p n)) (revoke_each-Does fs))
          ]

    revoke_listed-Does :
        (log : Log) (r : Reply)
        → Does log
            (revoke_listed run t.status.iqn
              (granted_of chap t.spec.initiators)
              (list_acls t.status.iqn ∷ log, r)).0
    unfolding revoke_listed
    revoke_listed-Does log (run_failed out e) = more same lists_acls
    revoke_listed-Does log (ran out) =
        Grows-trans log _ _ (more same lists_acls)
          (revoke_each-Does (fields out) (list_acls t.status.iqn ∷ log))

    -- A LUN that is not wanted goes with its backstore.
    stale-Does :
        (lun bs : String) (log : Log)
        → is_stale run (prefix_of t) (wanted_of t) (lun, bs) ≡ true
        → Does log (delete_block bs ∷ delete_lun t.status.iqn lun ∷ log)
    stale-Does lun bs log e =
        more (more same (deletes_lun lun)) (deletes_block bs (ground arith) (ground arith))

    prune_lines-Does :
        (ls : List String) (log : Log)
        → Does log (prune_lines run t.status.iqn (prefix_of t) (wanted_of t) ls log)
    unfolding prune_lines
    prune_lines-Does [] log = same
    prune_lines-Does (l ∷ ls) log =
        let (lun, bs) = parse_lun_line l in
        elim (Bool-cases (is_stale run (prefix_of t) (wanted_of t) (lun, bs))) [
          | inl e ↦
              rw (e, prune_lines)
                (Grows-trans log _ _ (stale-Does lun bs log e) (prune_lines-Does ls _))
          | inr e ↦ rw (e, prune_lines) (prune_lines-Does ls log)
        ]

    prune_listed-Does :
        (log : Log) (r : Reply) → Does log (prune_listed run t (list_luns t.status.iqn ∷ log, r))
    unfolding prune_listed
    prune_listed-Does log (run_failed out e) = more same lists_luns
    prune_listed-Does log (ran out) =
        Grows-trans log _ _ (more same lists_luns)
          (prune_lines-Does (lines out) (list_luns t.status.iqn ∷ log))

    prune_luns-Does : (log : Log) → Does log (prune_luns run t log)
    unfolding prune_luns
    prune_luns-Does log = prune_listed-Does log (run log (list_luns t.status.iqn))

    module _ (json : IpJson) (root : String) where
      record_vip-Does :
          (name vip : String) (log : Log) → Does log (record_vip json run root name vip log)
      unfolding record_vip
      record_vip-Does name vip log =
          if-both (Does log) (succeeds (run log _)) _ _
            (more (more same (is_other _ (cc))) (is_other _ (cc))) (more same (is_other _ (cc)))

      announce-Does :
          (log : Log) (vip dev : String) (fresh : Bool) (r : Log × Option String)
          → Does log r.0
          → Does log (announce json run vip dev fresh r).0
      unfolding announce
      announce-Does log vip dev fresh (l, some e) g = g
      announce-Does log vip dev true (l, none) g = more g (is_other _ (cc))
      announce-Does log vip dev false (l, none) g = g

      place_vip-Does :
          (name vip : String) (log : Log) (devs : List String)
          → Does log (place_vip json run root name vip log devs).0
      unfolding place_vip claim_vip vip_holders
      place_vip-Does name vip log [] = same
      place_vip-Does name vip log (dev ∷ devs) = announce-Does log vip dev _ _ (
          more
            (Grows-trans log _ _ (more same (is_other (show_holders (address_of vip)) (cc)))
              (record_vip-Does name vip _))
            (is_other (replace_addr vip dev) (cc)))

      place_by_route-Does :
          (name vip : String) (log : Log) (r : Reply)
          → Does log (place_by_route json run root name vip (show_default ∷ log, r)).0
      unfolding place_by_route
      place_by_route-Does name vip log (run_failed out e) = more same (is_other show_default (cc))
      place_by_route-Does name vip log (ran out) =
          Grows-trans log _ _ (more same (is_other show_default (cc)))
            (place_vip-Does name vip (show_default ∷ log) (or_nothing (json.routes out)))

      ensure_address-Does : (log : Log) → Does log (ensure_address run json root t log).0
      unfolding ensure_address ensure_vip
      ensure_address-Does log = elim (Bool-cases (t.spec.vip == "")) [
        | inl e ↦ rw e same
        | inr e ↦ rw e (place_by_route-Does t.meta.name t.spec.vip log (run log show_default))
      ]

      pub ensure_rest-Does : (log : Log) → Does log (ensure_rest run json root t log).0
      unfolding ensure_rest
      ensure_rest-Does log =
          Grows-unless_failed log _ (try run save_config)
            (Grows-trans log _ _ (prune_luns-Does log) (ensure_address-Does (prune_luns run t log)))
            (λ l. more same saves)

      -- `EnsureTarget` creates an ACL only for an initiator that may enter: the spec has it, and it needs
      -- no CHAP or a credential was resolved for it. It gives an ACL only the credential that was
      -- resolved for its initiator, and deletes an ACL only if its initiator may not enter. It creates
      -- backstores and LUNs only for the LUNs in the target's status, of their devices, and deletes a
      -- backstore only if its name has the prefix of this target and is none of those that the target
      -- has. Authentication it sets to 1 only if an initiator of the spec wants CHAP, and to 0 only if
      -- none does. The other uses of targetcli create the target, delete LUNs of it, list, and save.
      pub ensure_target-Grows :
          (log : Log) → Grows Allowed log (ensure_target run json root t chap log).0
      unfolding ensure_target ensure_grants prune_acls
      ensure_target-Grows log =
          let iqn = t.status.iqn in
          Grows-unless_failed log _ (ensure_rest run json root t)
            (Grows-unless_failed log _ (prune_acls run iqn (granted_of chap t.spec.initiators))
              (Grows-unless_failed log _ (try run (set_attribute iqn (auth_of t.spec.initiators)))
                (grants-Does log)
                (λ l. more same (sets_attribute _ (auth_of-IsAuth t.spec.initiators))))
              (λ l. revoke_listed-Does l (run l (list_acls iqn))))
            ensure_rest-Does
