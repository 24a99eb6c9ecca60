-- ===== src/Config.antt =====
-- The settings, `GetConfig` of internal/gophermart/config/config.go.
pub mod Keys
use gomart.Prelude.{
  ℕ, Bool, ◌&&◌, not, Option, none, some, Bytes, codes, is_empty, bytes_eq, if◌then◌else◌,
}
use gomart.Prelude.Int.{ℤ}
use gomart.Password.{encode_to_string}

pub record Config : Type 0 where
  pub address : Bytes
  pub database_uri : Bytes
  pub accrual_system_address : Bytes
  pub key : Bytes
  pub key_signature : Bytes
  pub level : Bytes
  pub poll_interval : ℤ
  pub rate_limit : ℤ

abbrev pub address_default : Bytes
address_default = codes ":8090"

abbrev pub database_uri_default : Bytes
database_uri_default = codes ""

abbrev pub accrual_s_add_def : Bytes
accrual_s_add_def = codes "localhost:8100"

abbrev key_default : Bytes
key_default = codes ""

abbrev key_signature_default : Bytes
key_signature_default = codes ""

abbrev pub default_key_len : ℕ
default_key_len = 16

-- `if env := os.Getenv(…); setting == default && env != "" { setting = env }`
abbrev pub or_env : Bytes → Bytes → Bytes → Bytes
or_env default env setting = if bytes_eq setting default && not (is_empty env) then env else setting

-- `if key == "" { … }`: `none` is the panic.
unfoldable pub or_random : Option Bytes → Bytes → Option Bytes
or_random random key =
    if is_empty key
    then elim random [ none ↦ none | some b ↦ some (encode_to_string b) ]
    else some key

-- The settings with their keys, and with the environment where a flag is not given.
abbrev pub with_keys : Config → (Bytes → Bytes) → Bytes → Bytes → Config
with_keys flags getenv key key_sig = record {
  address = or_env address_default (getenv (codes "RUN_ADDRESS")) flags.address;
  database_uri = or_env database_uri_default (getenv (codes "DATABASE_URI")) flags.database_uri;
  accrual_system_address =
      or_env accrual_s_add_def (getenv (codes "ACCRUAL_SYSTEM_ADDRESS"))
        flags.accrual_system_address;
  key = key;
  key_signature = key_sig;
  level = flags.level;
  poll_interval = flags.poll_interval;
  rate_limit = flags.rate_limit;
}

abbrev pub configured : Config → (Bytes → Bytes) → Option Bytes → Option Bytes → Option Config
configured flags getenv none key_sig = none
configured flags getenv (some key) none = none
configured flags getenv (some key) (some key_sig) = some (with_keys flags getenv key key_sig)

-- `flags` is what `flag.Parse` has left, the defaults where a flag is not given; `getenv` is the
-- environment; `random_key` and `random_sig` are what `GenerateRandom` returns, `none` for an error.
unfoldable pub get_config : Config → (Bytes → Bytes) → Option Bytes → Option Bytes → Option Config
get_config flags getenv random_key random_sig =
    configured flags getenv
      (or_random random_key (or_env key_default (getenv (codes "KEY")) flags.key))
      (or_random random_sig
        (or_env key_signature_default (getenv (codes "KEY_SIGNATURE")) flags.key_signature))
