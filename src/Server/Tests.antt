-- ===== src/Server/Tests.antt =====
-- The theorems on the server at concrete options.
use elbus.Base.{false, Bytes, [], ◌∷◌, none, codes}
use elbus.Proto.{Result, ok}
use elbus.Broker.Db.{Db}
use elbus.Broker.Maps.{NewMaps}
use elbus.Broker.Example.{exact_maps, no_name}
use elbus.Server.{Opts}

abbrev no_maps : NewMaps exact_maps
no_maps = record {
  new_subs = record { names = []; wishes = [] };
  new_casts = record { names = []; wishes = [] };
  has-new = no_name;
  knows-new = no_name;
}

abbrev opts : Opts
opts = record {
  path = codes "/tmp/b.sock" ∷ codes "fifo:/tmp/b.fifo" ∷ codes "0.0.0.0:7777" ∷ [];
  pid_file = none;
  verbose = false;
  daemonize = false;
  log_syslog = false;
  workers = 4;
  timeout = 5000000;
  buf_size = 16384;
  buf_ttl = 10;
  queue_size = 64;
}

abbrev opened : Bytes → Result (Unit {0})
opened path = ok tt
