-- ===== src/Password/Recovery.antt =====
-- The stored text of a password holds the password itself.
use gomart.Prelude.{
  ℕ, ◌+◌, ◌*◌, ◌-◌, ◌/◌, ◌%◌, ◌<◌, ◌≡◌, refl, sym, ◌∙◌, ap, ap₂, [], ◌∷◌, ◌++◌, Bytes, All-append,
  length, length-append, take, take-append_length, ltb, if◌then◌else◌, arith,
}
use gomart.Password.{AreBytes, Hmac, hex_digit, encode_to_string, hash_pass, stored_password}

abbrev digit_of : ℕ → ℕ
digit_of c = if ltb c b'a' then c - b'0' else c - b'a' + 10

abbrev decode_string : Bytes → Bytes
decode_string (c ∷ d ∷ s) = (16 * digit_of c + digit_of d) ∷ decode_string s
decode_string _ = []

digit_of-hex_digit : (n : ℕ) → n < 16 → digit_of (hex_digit n) ≡ n
digit_of-hex_digit n h = ground arith

decode_string-encode_to_string :
    (bs : Bytes) → AreBytes bs → decode_string (encode_to_string bs) ≡ bs
unfolding encode_to_string
decode_string-encode_to_string [] h = refl
decode_string-encode_to_string (b ∷ bs) h =
    let here : 16 * digit_of (hex_digit (b / 16)) + digit_of (hex_digit (b % 16)) ≡ b =
      omega (arith, digit_of-hex_digit (b / 16), digit_of-hex_digit (b % 16), h.0) in
    ap₂ (λ x l. x ∷ l) here (decode_string-encode_to_string bs h.1)

-- What anybody who reads the users table can compute, with no key.
pub recover : Bytes → Bytes
recover stored = let bs = decode_string stored in take (length bs - 32) bs

-- The password is recovered from its stored text without the signature key, whatever the key was.
pub recover-stored_password :
    (hmac : Hmac) (key password : Bytes)
    → AreBytes password
    → recover (stored_password hmac key password) ≡ password
unfolding recover stored_password hash_pass
recover-stored_password hmac key password h =
    let code = hmac.code key [] in
    rw
      (decode_string-encode_to_string (password ++ code)
        (All-append (λ b. b < 256) password code h (hmac.code-AreBytes key [])))
      (ap (λ n. take n (password ++ code))
          (omega (arith, length-append password code, hmac.length-code key []))
        ∙ take-append_length password code)

-- Two passwords have the same stored text only if they are equal, so a login accepts one password.
pub stored_password-injective :
    (hmac : Hmac) (key p q : Bytes)
    → AreBytes p
    → AreBytes q
    → stored_password hmac key p ≡ stored_password hmac key q
    → p ≡ q
stored_password-injective hmac key p q h k e =
    sym (recover-stored_password hmac key p h) ∙ ap recover e ∙ recover-stored_password hmac key q k
