-- ===== src/Credential/Example.antt =====
-- A merkle tree by association lists, and the claims of the tests.
use e_native_issuer.Common.{
  ℕ, Option, none, some, List, [], ◌∷◌, ◌==◌, if◌then◌else◌, Result, ok, err, suc, ◌+◌,
}
use e_native_issuer.Credential.{Error, MerkleTree, callee}

abbrev pub Tree : Type 0
Tree = List (ℕ × ℕ)

abbrev pub get_in : ℕ → Tree → Option ℕ
get_in k [] = none
get_in k ((j, v) ∷ t) = if j == k then some v else get_in k t

abbrev pub sum : Tree → ℕ
sum [] = 0
sum ((k, v) ∷ t) = suc (k + v) + sum t

-- A key is added once.
abbrev pub add_in : Option ℕ → ℕ → ℕ → Tree → Result Error Tree
add_in none k v t = ok ((k, v) ∷ t)
add_in (some w) k v t = err (callee 1)

abbrev pub lists : MerkleTree Tree
lists = record {
  add = λ k v t. add_in (get_in k t) k v t;
  get = λ k t. ok (get_in k t);
  root = sum;
  hash_elems = λ a b c. ok (a + (b + c));
  hi_hv = λ c. ok (c, c);
  hex = λ n. "state";
}
