-- ===== src/Examples/Settings.antt =====
-- The settings with nothing given.
use gomart.Prelude.{◌≡◌, false, some, [], Bytes, codes, is_empty}
use gomart.Prelude.Int.{pos}
use gomart.Config.{Config, get_config}
use gomart.Config.Keys.{get_config-keys}
use gomart.Examples.{zeros, length-zeros}

abbrev flags : Config
flags = record {
  address = codes ":8090";
  database_uri = [];
  accrual_system_address = codes "localhost:8100";
  key = [];
  key_signature = [];
  level = codes "debug";
  poll_interval = pos 2;
  rate_limit = pos 2;
}

abbrev getenv : Bytes → Bytes
getenv name = []

get_config-keys_example :
    (c : Config) × (get_config flags getenv (some (zeros 16)) (some (zeros 16)) ≡ some c)
    × (is_empty c.key ≡ false)
    × (is_empty c.key_signature ≡ false)
get_config-keys_example =
    get_config-keys flags getenv (zeros 16) (zeros 16) (length-zeros 16) (length-zeros 16)
