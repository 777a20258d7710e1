-- ===== src/Target/Served/Credentials.antt =====
-- What it means that `chapSecrets` found nothing wrong.
use stornas.Base.{
  String, ◌≡◌, refl, sym, ◌≢◌, ◌⊎◌, inl, inr, true, false, ◌||◌, List, [], ◌∷◌, arith, ◌==◌, ◌<>◌,
  Bool-cases, eq_of_test, ne_of_test, In, here, there, contains, subst,
}
use text.Mathlib.TextLemmas.{append-eq-nil_iff}
use stornas.Kube.{GetReply, found, get_not_found, get_failed}
use stornas.Chap.{Secret, chap_credentials, is_usable}
use stornas.Target.{
  Initiator, versions, SecretVersion, first_problem, check_secret, chap_secrets_from,
}

-- The Secret of this name was read and holds credentials.
pub record IsUsable (get : String → GetReply Secret) (ref : String) : Type 0 where
  pub secret : Secret
  pub read : get ref ≡ found secret
  pub usable : is_usable (chap_credentials secret) ≡ true

prefixed_ne : (s : String) → ("chap secret " <> s) ≢ ""
prefixed_ne s e =
    ne_of_test "chap secret " "" refl ((append-eq-nil_iff {p = "chap secret "} {q = s}).0 e).0

first_problem_clear : (p new : String) → new ≢ "" → first_problem p new ≢ ""
first_problem_clear p new h e = elim (Bool-cases (p == "")) [
  | inl t ↦ h (rw t at e)
  | inr t ↦ ne_of_test p "" t (rw t at e)
]

-- A check that leaves no problem found none, and read a usable Secret.
check_clear :
    (get : String → GetReply Secret) (ref : String) (r : GetReply Secret)
    (vs vs' : List SecretVersion) (p p' : String)
    → get ref ≡ r
    → check_secret ref r vs p ≡ versions vs' p'
    → p' ≡ ""
    → (p ≡ "") × IsUsable get ref
unfolding check_secret
check_clear get ref get_not_found vs vs' p p' g h e = absurd (
    first_problem_clear p ("chap secret " <> ref <> " not found")
      (prefixed_ne (ref <> " not found")) (cc))
check_clear get ref (get_failed x) vs vs' p p' g h e = absurd (cc)
check_clear get ref (found s) vs vs' p p' g h e =
    elim (Bool-cases (is_usable (chap_credentials s))) [
      | inl u ↦ let h' = rw u at h in ((cc), record { secret = s; read = g; usable = u })
      | inr u ↦
          let h' = rw u at h in
          absurd (
            first_problem_clear p ("chap secret " <> ref <> " has no username or password key")
              (prefixed_ne (ref <> " has no username or password key")) (cc))
    ]

module _ (get : String → GetReply Secret) where
  -- One round that does not skip.
  round :
      (ini : Initiator) (inis : List Initiator) (seen : List String) (vs vs' : List SecretVersion)
      (p p' : String)
      → (ini.chap_secret_ref == "" || contains ini.chap_secret_ref seen) ≡ false
      → chap_secrets_from get (ini ∷ inis) seen vs p ≡ versions vs' p'
      → (vs₁ : List SecretVersion) × (p₁ : String) × (check_secret ini.chap_secret_ref
            (get ini.chap_secret_ref)
            vs
            p
          ≡ versions vs₁ p₁)
        × (chap_secrets_from get inis (ini.chap_secret_ref ∷ seen) vs₁ p₁ ≡ versions vs' p')
  unfolding chap_secrets_from
  round ini inis seen vs vs' p p' t h = ground arith

  skip :
      (ini : Initiator) (inis : List Initiator) (seen : List String) (vs vs' : List SecretVersion)
      (p p' : String)
      → (ini.chap_secret_ref == "" || contains ini.chap_secret_ref seen) ≡ true
      → chap_secrets_from get (ini ∷ inis) seen vs p ≡ versions vs' p'
      → chap_secrets_from get inis seen vs p ≡ versions vs' p'
  unfolding chap_secrets_from
  skip ini inis seen vs vs' p p' t h = ground arith

  -- The problem only ever appears.
  clear_before :
      (inis : List Initiator) (seen : List String) (vs vs' : List SecretVersion) (p p' : String)
      → chap_secrets_from get inis seen vs p ≡ versions vs' p'
      → p' ≡ ""
      → p ≡ ""
  unfolding chap_secrets_from
  clear_before [] seen vs vs' p p' h e = cc
  clear_before (ini ∷ inis) seen vs vs' p p' h e =
      elim (Bool-cases (ini.chap_secret_ref == "" || contains ini.chap_secret_ref seen)) [
        | inl t ↦ clear_before inis seen vs vs' p p' (skip ini inis seen vs vs' p p' t h) e
        | inr t ↦
            let (vs₁, p₁, c, rest) = round ini inis seen vs vs' p p' t h in
            (check_clear get ini.chap_secret_ref (get ini.chap_secret_ref) vs vs₁ p p₁ refl c
              (clear_before inis (ini.chap_secret_ref ∷ seen) vs₁ vs' p₁ p' rest e)).0
      ]

  -- The Secrets seen so far are usable.
  abbrev SeenUsable : List String → Type 0
  SeenUsable [] = Unit
  SeenUsable (r ∷ rs) = IsUsable get r × SeenUsable rs

  seen_usable :
      (ref : String) (seen : List String)
      → SeenUsable seen
      → contains ref seen ≡ true
      → IsUsable get ref
  seen_usable ref [] u h = absurd (cc)
  seen_usable ref (r ∷ rs) u h = elim (Bool-cases (r == ref)) [
    | inl e ↦ subst (IsUsable get) (eq_of_test r ref e) u.0
    | inr e ↦ seen_usable ref rs u.1 (rw e at h)
  ]

  skipped :
      (ref : String) (seen : List String)
      → SeenUsable seen
      → (ref == "" || contains ref seen) ≡ true
      → (ref ≡ "") ⊎ IsUsable get ref
  skipped ref seen u h = elim (Bool-cases (ref == "")) [
    | inl e ↦ inl (eq_of_test ref "" e)
    | inr e ↦ inr (seen_usable ref seen u (rw e at h))
  ]

  -- Nothing wrong: every Secret that an initiator names is usable.
  pub clear-IsUsable :
      (inis : List Initiator) (seen : List String) (vs vs' : List SecretVersion) (p p' : String)
      → chap_secrets_from get inis seen vs p ≡ versions vs' p'
      → p' ≡ ""
      → SeenUsable seen
      → (ini : Initiator) → In ini inis
      → (ini.chap_secret_ref ≡ "") ⊎ IsUsable get ini.chap_secret_ref
  clear-IsUsable [] seen vs vs' p p' h e u ini i = elim i [ ]
  clear-IsUsable (x ∷ inis) seen vs vs' p p' h e u ini i =
      elim (Bool-cases (x.chap_secret_ref == "" || contains x.chap_secret_ref seen)) [
        | inl t ↦ elim i [
          | here q ↦
              subst (λ (y : Initiator). (y.chap_secret_ref ≡ "") ⊎ IsUsable get y.chap_secret_ref)
                (sym q) (skipped x.chap_secret_ref seen u t)
          | there j ↦
              clear-IsUsable inis seen vs vs' p p' (skip x inis seen vs vs' p p' t h) e u ini j
        ]
        | inr t ↦
            let (vs₁, p₁, c, rest) = round x inis seen vs vs' p p' t h in
            let (p_clear, usable) =
              check_clear get x.chap_secret_ref (get x.chap_secret_ref) vs vs₁ p p₁ refl c
                (clear_before inis (x.chap_secret_ref ∷ seen) vs₁ vs' p₁ p' rest e) in
            elim i [
              | here q ↦
                  subst
                    (λ (y : Initiator). (y.chap_secret_ref ≡ "") ⊎ IsUsable get y.chap_secret_ref)
                    (sym q) (inr usable)
              | there j ↦
                  clear-IsUsable inis (x.chap_secret_ref ∷ seen) vs₁ vs' p₁ p' rest e (usable, u)
                    ini j
            ]
      ]
