-- ===== src/Cli/Listing.antt =====
-- src/cli.rs: the commands of the broker, `client.list`, `info`, `stats` and `test`, by what the core
-- methods answer.
use elbus.Base.{
  ℕ, ◌≡◌, refl, ◌∙◌, arith, Bytes, List, [], ◌∷◌, Option, none, some, if◌then◌else◌, eq_bytes,
  eq_bytes→eq, eq_bytes_refl, codes, map,
}
use elbus.Broker.Core.{ClientInfo, BrokerStats, BrokerInfo, sort_infos, client_list}
use elbus.Broker.Core.Listing.{infos_named, infos_named-sort_infos, primaries, client_list-Lists}
use elbus.Broker.Db.{Db, lookup}
use elbus.Broker.Maps.{Maps}
use elbus.Broker.Registry.Invariant.{Inv}
use elbus.Cli.{Out, table}
use elbus.Cli.Print.{Codec}

-- The clients but this one.
unfoldable pub others : Bytes → List ClientInfo → List ClientInfo
others own [] = []
others own (c ∷ cs) = let rest = others own cs in if eq_bytes c.name own then rest else c ∷ rest

-- what the program makes of the list that is answered
unfoldable pub listed_clients : Bytes → List ClientInfo → List ClientInfo
unfolding others
listed_clients own clients = others own (sort_infos clients)

module _ (C : Codec) (fnum : ℕ → Bytes) where
  abbrev text_of : Option Bytes → Bytes
  text_of none = []
  text_of (some b) = b

  unfoldable row_of : ClientInfo → List Bytes
  row_of c =
      c.name
      ∷ c.kind
      ∷ text_of c.source
      ∷ text_of c.port
      ∷ fnum c.r_frames
      ∷ fnum c.r_bytes
      ∷ fnum c.w_frames
      ∷ fnum c.w_bytes
      ∷ fnum c.queue
      ∷ fnum c.instances
      ∷ []

  unfoldable client_table : Bytes → List ClientInfo → Out
  unfolding row_of listed_clients
  client_table own clients = table (
      (codes "name"
        ∷ codes "type"
        ∷ codes "source"
        ∷ codes "port"
        ∷ codes "r_frames"
        ∷ codes "r_bytes"
        ∷ codes "w_frames"
        ∷ codes "w_bytes"
        ∷ codes "queue"
        ∷ codes "ins"
        ∷ [])
      ∷ map row_of (listed_clients own clients))

  abbrev field : Bytes → Bytes → List Bytes
  field name value = name ∷ value ∷ []

  abbrev titles : List Bytes
  titles = field (codes "field") (codes "value")

  -- `show` writes a number as it is
  unfoldable stats_table : (ℕ → Bytes) → BrokerStats → Out
  stats_table show stats = table (
      titles
      ∷ field (codes "r_frames") (show stats.r_frames)
      ∷ field (codes "r_bytes") (show stats.r_bytes)
      ∷ field (codes "w_frames") (show stats.w_frames)
      ∷ field (codes "w_bytes") (show stats.w_bytes)
      ∷ field (codes "uptime") (show stats.uptime)
      ∷ [])

  unfoldable info_table : BrokerInfo → Out
  info_table info =
      table
        (titles ∷ field (codes "author") info.author ∷ field (codes "version") info.version ∷ [])

infos_named-others :
    (n own : Bytes) (cs : List ClientInfo)
    → infos_named n (others own cs) ≡ (if eq_bytes own n then [] else infos_named n cs)
unfolding infos_named others
infos_named-others n own [] = ground arith
infos_named-others n own (c ∷ cs) = ground (
  arith,
  infos_named-others n own cs,
  eq_bytes→eq c.name own,
  eq_bytes→eq c.name n,
  eq_bytes→eq own n,
  eq_bytes_refl own,
  eq_bytes_refl c.name,
)

-- From the list that the broker answers, if its maps are consistent, the program shows under a name
-- the primary client that is registered under it and nothing else, and nothing under its own name.
pub listed_clients-Lists :
    (X : Maps) (db : Db X) (own n : Bytes)
    → Inv X db
    → infos_named n (listed_clients own (client_list X db))
      ≡ (if eq_bytes own n then [] else primaries db.heap (lookup n db.clients))
unfolding listed_clients
listed_clients-Lists X db own n v =
    infos_named-others n own (sort_infos (client_list X db))
    ∙ rw (infos_named-sort_infos n (client_list X db), (client_list-Lists X db v).1 n) refl
