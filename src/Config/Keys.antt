-- ===== src/Config/Keys.antt =====
-- The signature keys that the settings end up with.
use gomart.Prelude.{
  ap₂, ◌≡◌, refl, inl, inr, Bool-cases, false, some, [], ◌∷◌, Bytes, codes, is_empty, length, arith,
}
use gomart.Password.{encode_to_string}
use gomart.Config.{Config, default_key_len, or_env, or_random, with_keys, configured, get_config}

encode_to_string-is_empty :
    (b : Bytes) → length b ≡ default_key_len → is_empty (encode_to_string b) ≡ false
unfolding encode_to_string
encode_to_string-is_empty [] h = absurd (omega (arith, h))
encode_to_string-is_empty (c ∷ b) h = refl

or_random-some :
    (b key : Bytes)
    → length b ≡ default_key_len
    → (k : Bytes) × (or_random (some b) key ≡ some k) × (is_empty k ≡ false)
unfolding or_random
or_random-some b key h = elim (Bool-cases (is_empty key)) [
  | inl e ↦ (encode_to_string b, rw e refl, encode_to_string-is_empty b h)
  | inr e ↦ (key, rw e refl, e)
]

-- If the random source delivers 16 bytes each time, the settings are returned whatever the flags and
-- the environment are, and neither of the two keys is empty.
pub get_config-keys :
    (flags : Config) (getenv : Bytes → Bytes) (b₁ b₂ : Bytes)
    → length b₁ ≡ default_key_len
    → length b₂ ≡ default_key_len
    → (c : Config) × (get_config flags getenv (some b₁) (some b₂) ≡ some c)
      × (is_empty c.key ≡ false)
      × (is_empty c.key_signature ≡ false)
unfolding get_config
get_config-keys flags getenv b₁ b₂ h₁ h₂ =
    let (k, e, full) = or_random-some b₁ (or_env (codes "") (getenv (codes "KEY")) flags.key) h₁ in
    let (k', e', full') =
      or_random-some b₂ (or_env (codes "") (getenv (codes "KEY_SIGNATURE")) flags.key_signature)
        h₂ in
    (with_keys flags getenv k k', ap₂ (configured flags getenv) e e', full, full')
