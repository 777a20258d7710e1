-- ===== src/TtlCache/Fresh.antt =====
-- What a cache answers after some writes.
use stornas.Base.{
  ℕ, ◌+◌, ◌≤◌, ◌<◌, String, ◌≡◌, refl, ap, ◌∙◌, ◌↔◌, inl, inr, true, false, Option, none, some,
  List, [], ◌∷◌, arith, ◌==◌, ltb, leb, if◌then◌else◌, Bool-cases, All,
}
use stornas.TtlCache.{Entry, Cache, new, is_unexpired, is_expired, read_entry, evict, get, put}

pub record Put {ℓ} (V : Type ℓ) : Type ℓ where
  pub time : ℕ
  pub key : String
  pub val : V

some_equal {ℓ} : {A : Type ℓ} (a b : A) → some a ≡ some b → a ≡ b
some_equal a b h = cc

module _ {ℓ} {V : Type ℓ} where
  -- The cache after some writes, the last one first.
  abbrev pub after : ℕ → List (Put V) → Cache V
  after ttl [] = new ttl
  after ttl (p ∷ ps) = put p.time p.key p.val (after ttl ps)

  -- The last write of a key.
  abbrev pub last_put : String → List (Put V) → Option (Entry V)
  last_put key [] = none
  last_put key (p ∷ ps) =
      if key == p.key then some (record { val = p.val; at = p.time }) else last_put key ps

  -- Eviction takes nothing that a later read would find.
  read_entry-evict :
      (ttl now t : ℕ) (o : Option (Entry V))
      → t ≤ now
      → read_entry ttl now (evict ttl t o) ≡ read_entry ttl now o
  unfolding read_entry evict is_unexpired is_expired
  read_entry-evict ttl now t none h = refl
  read_entry-evict ttl now t (some e) h = elim (Bool-cases (leb (e.at + ttl) t)) [
    | inr x ↦ rw x refl
    | inl x ↦ rw (x, not_later ttl now t e.at h x) refl
  ]
    where
      not_later :
          (ttl now t at : ℕ) → t ≤ now → leb (at + ttl) t ≡ true → ltb now (at + ttl) ≡ false
      not_later ttl now t at h x = ground arith

  after-ttl : (ttl : ℕ) (ps : List (Put V)) → (after ttl ps).ttl ≡ ttl
  unfolding put
  after-ttl ttl [] = refl
  after-ttl ttl (p ∷ ps) = after-ttl ttl ps

  reads :
      (ttl now : ℕ) (key : String) (ps : List (Put V))
      → All (λ (p : Put V). p.time ≤ now) ps
      → read_entry ttl now ((after ttl ps).entries key) ≡ read_entry ttl now (last_put key ps)
  unfolding put
  reads ttl now key [] h = refl
  reads ttl now key (p ∷ ps) h = elim (Bool-cases (key == p.key)) [
    | inl e ↦ rw e refl
    | inr e ↦
        rw (e, after-ttl ttl ps)
          (read_entry-evict ttl now p.time ((after ttl ps).entries key) h.0
            ∙ reads ttl now key ps h.1)
  ]

  -- The value stands in the entry, whose age is less than the TTL.
  abbrev pub IsYoung : ℕ → ℕ → Option (Entry V) → V → Type ℓ
  IsYoung ttl now o v = (e : Entry V) × (o ≡ some e) × (e.val ≡ v) × (now < e.at + ttl)

  read_entry-IsYoung_iff :
      (ttl now : ℕ) (o : Option (Entry V)) (v : V)
      → (read_entry ttl now o ≡ some v) ↔ IsYoung ttl now o v
  unfolding read_entry is_unexpired
  read_entry-IsYoung_iff ttl now none v = (λ h. cc, λ q. cc (q.1))
  read_entry-IsYoung_iff ttl now (some e) v = elim (Bool-cases (ltb now (e.at + ttl))) [
    | inl x ↦ rw x (
      λ h. (e, refl, some_equal _ _ h, young x),
      λ q. ap some (ap Entry.val (some_equal _ _ q.1) ∙ q.2),
    )
    | inr x ↦ rw x (λ h. cc, λ q. absurd (old x (rw (← some_equal _ _ q.1) at q.3)))
  ]
    where
      young : ltb now (e.at + ttl) ≡ true → now < e.at + ttl
      young x = ground arith

      old : ltb now (e.at + ttl) ≡ false → ¬ (now < e.at + ttl)
      old x y = ground arith

  -- On a clock that has not run back, after any writes, `Get` answers a value exactly if that is the
  -- value of the last write of the key, and less time than the TTL has passed since.
  pub get-after_iff :
      (ttl now : ℕ) (key : String) (ps : List (Put V)) (v : V)
      → All (λ (p : Put V). p.time ≤ now) ps
      → (get now key (after ttl ps) ≡ some v) ↔ IsYoung ttl now (last_put key ps) v
  unfolding get
  get-after_iff ttl now key ps v h =
      rw (after-ttl ttl ps, reads ttl now key ps h)
        (read_entry-IsYoung_iff ttl now (last_put key ps) v)
