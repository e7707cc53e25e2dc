-- ===== src/Client/Tests.antt =====
-- The theorem on the clients at writes that end in an error.
use elbus.Base.{true}
use elbus.Client.{IsLawful}
use elbus.Client.Instances.{ipc_client, local_client, clients-IsLawful}
use elbus.Ipc.Send.{in_time, io_failed}
use elbus.Broker.Example.{exact_maps, encode, room}

clients-IsLawful_example :
    IsLawful (ipc_client in_time (io_failed true))
    × IsLawful (local_client exact_maps encode room 0)
clients-IsLawful_example = clients-IsLawful in_time (io_failed true) exact_maps encode room 0
