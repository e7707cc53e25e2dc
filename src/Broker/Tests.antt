-- ===== src/Broker/Tests.antt =====
-- The theorems on the broker at concrete inputs.
mod Fifo
mod Deliveries
mod Own
mod Connections
use elbus.Base.{
  ℕ, [], ◌∷◌, Bytes, ◌≡◌, codes, eq_bytes→eq, none, some, eq_bytes, if◌then◌else◌, ◌&&◌, ◌||◌,
  arith,
}
use elbus.Broker.Client.{has_name, client_new}
use elbus.Broker.Db.{Db, lookup}
use elbus.Broker.Registry.{insert_client, drop_client}
use elbus.Broker.Registry.Effects.{
  Registers, insert_client-Registers, AreSecondary, lookup-drop_client,
}
use elbus.Broker.Announce.{register_client}
use elbus.Broker.Safety.{Safe, Safe-register}
use elbus.Broker.Example.{exact_maps, empty_db, client_of, encode, room, Safe-empty_db}

-- "a" is registered, and then "b"
abbrev pub one : Db exact_maps
one = (register_client exact_maps encode room 0 empty_db).1

abbrev pub two : Db exact_maps
two = (register_client exact_maps encode room 1 one).1

pub Safe-one : Safe exact_maps one
Safe-one = (Safe-register exact_maps encode room 0 empty_db Safe-empty_db).0

pub Safe-two : Safe exact_maps two
Safe-two = (Safe-register exact_maps encode room 1 one Safe-one).0

insert_client-Registers_example :
    Registers exact_maps empty_db 0 (insert_client exact_maps empty_db 0)
insert_client-Registers_example = insert_client-Registers exact_maps empty_db 0

abbrev a_alone : Db exact_maps
a_alone = record empty_db { clients = (codes "a", 0) ∷ [] }

named_a : (n : Bytes) (i : ℕ) → lookup n ((codes "a", 0) ∷ []) ≡ some i → (client_of i).name ≡ n
unfolding lookup client_new
named_a n i e = ground (arith, eq_bytes→eq (codes "a") n)

no_secondaries : AreSecondary exact_maps a_alone []
unfolding has_name
no_secondaries = record { named = named_a; ranked = λ n i m l. cc }

lookup-drop_client_example : lookup (codes "a") (drop_client exact_maps a_alone 0).clients ≡ (
    if eq_bytes (a_alone.heap 0).name (codes "a")
      || ((a_alone.heap 0).primary && has_name (codes "a") (a_alone.heap 0).secondaries)
    then none
    else lookup (codes "a") a_alone.clients)
unfolding client_new
lookup-drop_client_example = lookup-drop_client exact_maps a_alone 0 (codes "a") no_secondaries
