-- ===== src/Password.antt =====
-- `HashPass` of internal/common/utils/common.go, and the text of it that the users table holds.
pub mod Recovery
use gomart.Prelude.{
  ℕ, ◌+◌, ◌-◌, ◌/◌, ◌%◌, ◌<◌, ◌≡◌, List, [], ◌∷◌, ◌++◌, Bytes, All, length, ltb, if◌then◌else◌,
}

abbrev pub AreBytes : Bytes → Type 0
AreBytes = All (λ b. b < 256)

-- `crypto/hmac` over SHA-256: the code of a message under a key is 32 bytes.
pub record Hmac : Type 0 where
  pub code : Bytes → Bytes → Bytes
  pub length-code : (key message : Bytes) → length (code key message) ≡ 32
  pub code-AreBytes : (key message : Bytes) → AreBytes (code key message)

abbrev pub hex_digit : ℕ → ℕ
hex_digit n = if ltb n 10 then b'0' + n else b'a' + (n - 10)

-- `hex.EncodeToString`
unfoldable pub encode_to_string : Bytes → Bytes
encode_to_string [] = []
encode_to_string (b ∷ bs) = hex_digit (b / 16) ∷ hex_digit (b % 16) ∷ encode_to_string bs

-- `h.Sum(p)` appends to `p` the code of what was written to `h`, and nothing was.
unfoldable pub hash_pass : Hmac → Bytes → Bytes → Bytes
hash_pass hmac p k = p ++ hmac.code k []

-- `hex.EncodeToString(utils.HashPass([]byte(password), keySig))`
unfoldable pub stored_password : Hmac → Bytes → Bytes → Bytes
stored_password hmac key_sig password = encode_to_string (hash_pass hmac password key_sig)
