-- ===== src/TtlMap/Tests.antt =====
-- Runs of the map and the theorems at concrete inputs.
use e_native_issuer.Common.{◌≡◌, refl, Bool, true, none, some}
use e_native_issuer.TtlMap.{TtlMap, new, store, load}

abbrev held : TtlMap Bool
held = store 100 "did:a" true (new 60)

load_in_time : load 160 "did:a" held ≡ some true
unfolding load store new
load_in_time = refl

load_too_late : load 161 "did:a" held ≡ none
unfolding load store new
load_too_late = refl
