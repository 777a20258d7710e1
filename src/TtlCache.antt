-- ===== src/TtlCache.antt =====
-- internal/ttlcache/ttlcache.go: a cache whose entries live for a time.
pub mod Fresh
mod Examples
use stornas.Base.{ℕ, ◌+◌, String, Bool, Option, none, some, ◌==◌, ltb, leb, if◌then◌else◌}

pub record Entry {ℓ} (V : Type ℓ) : Type ℓ where
  pub val : V
  pub at : ℕ

-- The map, and how long its entries live.
pub record Cache {ℓ} (V : Type ℓ) : Type ℓ where
  pub ttl : ℕ
  pub entries : String → Option (Entry V)

module _ {ℓ} {V : Type ℓ} where
  -- `New`.
  abbrev pub new : ℕ → Cache V
  new ttl = record { ttl = ttl; entries = λ k. none }

  -- `time.Since(e.at) < c.ttl`, the test of `Get`.
  unfoldable pub is_unexpired : ℕ → ℕ → Entry V → Bool
  is_unexpired ttl now e = ltb now (e.at + ttl)

  -- `now.Sub(e.at) >= c.ttl`, the test of `Put`.
  unfoldable pub is_expired : ℕ → ℕ → Entry V → Bool
  is_expired ttl now e = leb (e.at + ttl) now

  unfoldable pub read_entry : ℕ → ℕ → Option (Entry V) → Option V
  read_entry ttl now none = none
  read_entry ttl now (some e) = if is_unexpired ttl now e then some e.val else none

  -- `Get`; `none` is a false second result.
  unfoldable pub get : ℕ → String → Cache V → Option V
  unfolding read_entry
  get now key c = read_entry c.ttl now (c.entries key)

  -- The loop of `Put` at one key.
  unfoldable pub evict : ℕ → ℕ → Option (Entry V) → Option (Entry V)
  evict ttl now none = none
  evict ttl now (some e) = if is_expired ttl now e then none else some e

  -- `Put`: what has expired goes first.
  unfoldable pub put : ℕ → String → V → Cache V → Cache V
  unfolding evict
  put now key val c = record c {
    entries = λ k.
        if k == key then some (record { val = val; at = now }) else evict c.ttl now (c.entries k);
  }
