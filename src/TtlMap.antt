-- ===== src/TtlMap.antt =====
-- issuer-node/internal/syncttlmap/sync_map.go: the map with expiring entries that guards state
-- publication. `sync.Map` is a function from keys, and times are in nanoseconds.
pub mod Expiry
pub mod Tests
use e_native_issuer.Common.{ℕ, ◌+◌, String, Bool, Option, none, some, str_eq, ltb, if◌then◌else◌}

-- expireEntry
pub record ExpireEntry {ℓ} (V : Type ℓ) : Type ℓ where
  pub expires_at : ℕ
  pub value : V

-- TTLMap
pub record TtlMap {ℓ} (V : Type ℓ) : Type ℓ where
  pub ttl : ℕ
  pub entries : String → Option (ExpireEntry V)

-- t.After(u)
abbrev pub after : ℕ → ℕ → Bool
after t u = ltb u t

module _ {ℓ} {V : Type ℓ} where
  unfoldable pub new : ℕ → TtlMap V
  new ttl = record { ttl = ttl; entries = λ k. none }

  unfoldable pub store : ℕ → String → V → TtlMap V → TtlMap V
  store now key val t = record t {
    entries = λ k.
        if str_eq key k
        then some (record { expires_at = now + t.ttl; value = val })
        else t.entries k;
  }

  unfoldable pub delete : String → TtlMap V → TtlMap V
  delete key t = record t { entries = λ k. if str_eq key k then none else t.entries k }

  abbrev unexpired : ℕ → Option (ExpireEntry V) → Option V
  unexpired now none = none
  unexpired now (some e) = if after now e.expires_at then none else some e.value

  -- `none` is the nil of the source.
  unfoldable pub load : ℕ → String → TtlMap V → Option V
  load now key t = unexpired now (t.entries key)

  abbrev swept : ℕ → Option (ExpireEntry V) → Option (ExpireEntry V)
  swept now none = none
  swept now (some e) = if after e.expires_at now then none else some e

  -- One tick of CleaningBackground, with the source's test: it deletes the entries that expire
  -- after the tick.
  unfoldable pub clean : ℕ → TtlMap V → TtlMap V
  clean now t = record t { entries = λ k. swept now (t.entries k) }
