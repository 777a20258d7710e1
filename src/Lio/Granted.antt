-- ===== src/Lio/Granted.antt =====
-- The initiators that internal/agent/lio.go grants access to a target.
use stornas.Base.{
  String, ◌≡◌, refl, sym, ap, ◌∙◌, ◌≢◌, ◌⊎◌, inl, inr, Bool, true, false, not, ◌||◌, Option, none,
  some, List, [], ◌∷◌, arith, ◌==◌, Bool-cases, eq_of_test, test_of_eq, ne_of_test, any, In, here,
  there, contains, subst, or_false,
}
use stornas.Chap.{ChapCred}
use stornas.Target.{Target, Initiator}
use stornas.Lio.{Credentials, lacks_credential, auth_of, granted_of}

-- The spec has an initiator of this IQN that needs no CHAP, or there is a credential for it.
abbrev pub MayEnter : Target → Credentials → String → Type 0
MayEnter t chap iqn =
    (ini : Initiator) × In ini t.spec.initiators
    × (ini.iqn ≡ iqn)
    × ((ini.chap_secret_ref ≡ "") ⊎ ((cred : ChapCred) × (chap iqn ≡ some cred)))

pub lacks_ways :
    (ini : Initiator) (cred : Option ChapCred)
    → lacks_credential ini cred ≡ false
    → (ini.chap_secret_ref ≡ "") ⊎ ((c : ChapCred) × (cred ≡ some c))
lacks_ways ini (some c) h = inr (c, refl)
lacks_ways ini none h = inl (eq_of_test _ _ (ground arith))

-- The initiators that were granted may enter.
pub granted_of-MayEnter :
    (chap : Credentials) (inis : List Initiator) (f : String)
    → contains f (granted_of chap inis) ≡ true
    → (ini : Initiator) × In ini inis
      × (ini.iqn ≡ f)
      × ((ini.chap_secret_ref ≡ "") ⊎ ((cred : ChapCred) × (chap f ≡ some cred)))
unfolding granted_of
granted_of-MayEnter chap [] f h = absurd (cc)
granted_of-MayEnter chap (ini ∷ inis) f h =
    elim (Bool-cases (lacks_credential ini (chap ini.iqn))) [
      | inl e ↦
          let (i, m, q', r) = granted_of-MayEnter chap inis f (rw e at h) in (i, there m, q', r)
      | inr e ↦ elim (Bool-cases (ini.iqn == f)) [
        | inl q ↦ (ini, here refl, eq_of_test _ _ q, rw (eq_of_test _ _ q) at (lacks_ways ini _ e))
        | inr q ↦
            let (i, m, q', r) = granted_of-MayEnter chap inis f (rw q at (rw e at h)) in
            (i, there m, q', r)
      ]
    ]

has_ways :
    (ini : Initiator) (cred : Option ChapCred)
    → (ini.chap_secret_ref ≡ "") ⊎ ((c : ChapCred) × (cred ≡ some c))
    → lacks_credential ini cred ≡ false
has_ways ini (some c) h = refl
has_ways ini none (inl e) = rw (test_of_eq _ _ e) refl
has_ways ini none (inr (c, e)) = absurd (cc)

-- ... and those that may enter were granted.
pub MayEnter-granted :
    (chap : Credentials) (inis : List Initiator) (ini : Initiator)
    → In ini inis
    → (ini.chap_secret_ref ≡ "") ⊎ ((c : ChapCred) × (chap ini.iqn ≡ some c))
    → contains ini.iqn (granted_of chap inis) ≡ true
unfolding granted_of
MayEnter-granted chap [] ini i h = elim i [ ]
MayEnter-granted chap (x ∷ xs) ini (here e) h =
    rw (subst (λ (y : Initiator). lacks_credential y (chap y.iqn) ≡ false) e (has_ways ini _ h))
      (rw (test_of_eq x.iqn ini.iqn (ap Initiator.iqn (sym e))) refl)
MayEnter-granted chap (x ∷ xs) ini (there j) h =
    elim (Bool-cases (lacks_credential x (chap x.iqn))) [
      | inl e ↦ rw e (MayEnter-granted chap xs ini j h)
      | inr e ↦ rw e (rw (MayEnter-granted chap xs ini j h) (or_true (x.iqn == ini.iqn)))
    ]
  where
    or_true : (b : Bool) → (b || true) ≡ true
    or_true true = refl
    or_true false = refl

-- CHAP is asked for just where an initiator of the spec wants it.
abbrev pub IsAuth : List Initiator → String → Type 0
IsAuth inis auth =
    ((auth ≡ "1") × ((ini : Initiator) × In ini inis × (ini.chap_secret_ref ≢ "")))
    ⊎ ((auth ≡ "0") × ((ini : Initiator) → In ini inis → ini.chap_secret_ref ≡ ""))

abbrev wants_chap : Initiator → Bool
wants_chap ini = not (ini.chap_secret_ref == "")

some_wants :
    (inis : List Initiator)
    → any wants_chap inis ≡ true
    → (ini : Initiator) × In ini inis × (ini.chap_secret_ref ≢ "")
some_wants [] h = cc
some_wants (x ∷ xs) h = elim (Bool-cases (x.chap_secret_ref == "")) [
  | inl e ↦ let (i, m, n) = some_wants xs (rw e at h) in (i, there m, n)
  | inr e ↦ (x, here refl, ne_of_test _ _ e)
]

none_wants :
    (inis : List Initiator)
    → any wants_chap inis ≡ false
    → (ini : Initiator) → In ini inis
    → ini.chap_secret_ref ≡ ""
none_wants [] h ini i = elim i [ ]
none_wants (x ∷ xs) h ini i =
    let (a, b) = or_false (wants_chap x) (any wants_chap xs) h in
    elim i [
      | here e ↦ ap Initiator.chap_secret_ref e ∙ eq_of_test _ _ (ground arith)
      | there j ↦ none_wants xs b ini j
    ]

pub auth_of-IsAuth : (inis : List Initiator) → IsAuth inis (auth_of inis)
unfolding auth_of
auth_of-IsAuth inis = elim (Bool-cases (any wants_chap inis)) [
  | inl e ↦ rw e (inl (refl, some_wants inis e))
  | inr e ↦ rw e (inr (refl, none_wants inis e))
]
