-- ===== src/ApiKey/Secret.antt =====
-- What parsePrefix recovers from a secret of newSecret.
use e_native_issuer.Common.{
  ℕ, ◌/◌, ◌%◌, ◌≡◌, ◌≢◌, refl, Bytes, false, none, some, [], ◌∷◌, ◌++◌, ◌==◌, arith,
}
use e_native_issuer.ApiKey.Token.{
  hex_digit, hex, separator, prefix_of, secret_of, split_last, parse_prefix,
}

hex_digit-separator : (d : ℕ) → (hex_digit d == separator) ≡ false
hex_digit-separator d = ground arith

split_last-hex : (bs : Bytes) → split_last (hex bs) ≡ none
unfolding split_last
split_last-hex [] = refl
split_last-hex (b ∷ bs) =
    rw (split_last-hex bs, hex_digit-separator (b % 16), hex_digit-separator (b / 16)) refl

split_last-append :
    (a h : Bytes) → split_last h ≡ none → split_last (a ++ separator ∷ h) ≡ some (a, h)
unfolding split_last
split_last-append [] h e = rw e refl
split_last-append (x ∷ a) h e = rw (split_last-append a h e) refl

-- parsePrefix gives back the prefix of a secret that newSecret made, whatever the random bytes
-- were, when there is a random byte after the prefix.
pub parse_prefix-secret_of :
    (prefix_raw secret_raw : Bytes)
    → secret_raw ≢ []
    → parse_prefix (secret_of prefix_raw secret_raw) ≡ some (prefix_of prefix_raw)
unfolding parse_prefix secret_of prefix_of
parse_prefix-secret_of p [] h = elim (h refl) [ ]
parse_prefix-secret_of p (b ∷ bs) h =
    rw (split_last-append (prefix_of p) (hex (b ∷ bs)) (split_last-hex (b ∷ bs))) refl
