-- ===== src/Broker/Config.antt =====
-- src/broker.rs: `ServerConfig`, with which a server is started, and the defaults of src/lib.rs.
-- Durations are in microseconds.
use elbus.Base.{ℕ, Bytes, Option, none, some}
use elbus.Broker.Access.{Lists, ClientAaa}

abbrev pub default_timeout : ℕ
default_timeout = 1000000

abbrev pub default_buf_ttl : ℕ
default_buf_ttl = 10

abbrev pub default_buf_size : ℕ
default_buf_size = 8192

module _ (A : Lists) where
  -- `AaaMap`: the lookup in the map
  abbrev pub AaaMap : Type 0
  AaaMap = Bytes → Option (ClientAaa A)

  pub record ServerConfig : Type 0 where
    pub buf_size : ℕ
    pub buf_ttl : ℕ
    pub timeout : ℕ
    pub aaa_map : Option AaaMap

  -- `ServerConfig::default`, which is also `new`
  abbrev pub server_config_new : ServerConfig
  server_config_new = record {
    buf_size = default_buf_size;
    buf_ttl = default_buf_ttl;
    timeout = default_timeout;
    aaa_map = none;
  }

  abbrev pub with_buf_size : ServerConfig → ℕ → ServerConfig
  with_buf_size c size = record c { buf_size = size }

  abbrev pub with_buf_ttl : ServerConfig → ℕ → ServerConfig
  with_buf_ttl c ttl = record c { buf_ttl = ttl }

  abbrev pub with_timeout : ServerConfig → ℕ → ServerConfig
  with_timeout c timeout = record c { timeout = timeout }

  abbrev pub with_aaa_map : ServerConfig → AaaMap → ServerConfig
  with_aaa_map c aaa_map = record c { aaa_map = some aaa_map }
