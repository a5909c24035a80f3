-- ===== src/TtlMap/Expiry.antt =====
-- What a reader of the map sees after each operation.
use e_native_issuer.Common.{
  ℕ, ◌+◌, ◌≤◌, ◌<◌, ◌≡◌, String, none, some, str_eq, eq_iff, ltb, if◌then◌else◌, arith,
}
use e_native_issuer.TtlMap.{ExpireEntry, TtlMap, store, delete, load, clean}

module _ {ℓ} {V : Type ℓ} (t : TtlMap V) where
  -- After a write at `now`, a read at `later` of the same key finds the value exactly until the
  -- time to live has passed, and a read of any other key finds what it found before.
  pub load-store :
      (now later : ℕ) (k j : String) (v : V)
      → load later j (store now k v t) ≡ (
          if str_eq k j then (if ltb (now + t.ttl) later then none else some v) else load later j t)
  unfolding load store
  load-store now later k j v = ground (arith, eq_iff k j)

  -- A deleted key is not found at any time, and the other keys are as before.
  pub load-delete :
      (later : ℕ) (k j : String)
      → load later j (delete k t) ≡ (if str_eq k j then none else load later j t)
  unfolding load delete
  load-delete later k j = ground (arith, eq_iff k j)

  -- One tick of the background cleaning at `now` takes away every entry that is still alive after
  -- `now`, and keeps every entry that has expired by then.
  pub clean-inverts :
      (now : ℕ) (k : String) (e : ExpireEntry V)
      → t.entries k ≡ some e
      → (now < e.expires_at → load now k (clean now t) ≡ none)
        × (e.expires_at ≤ now → (clean now t).entries k ≡ some e)
  unfolding load clean
  clean-inverts now k e h = (λ live. ground arith, λ dead. ground arith)
