-- ===== src/Broker/Tests/Own.antt =====
-- The broker's own clients and its core methods at a concrete broker.
use elbus.Base.{◌≡◌, [], ◌∷◌, codes}
use elbus.Proto.{QoS}
use elbus.Broker.Local.{subscribe, unsubscribe, subscribe_bulk, unsubscribe_bulk}
use elbus.Broker.Local.Subscribing.{answer_for, subscribing-answer}
use elbus.Broker.Example.{exact_maps}
use elbus.Broker.Tests.{two, Safe-two}

subscribing-answer_example :
    ((subscribe exact_maps 1 (codes "t") QoS.processed two).0
      ≡ answer_for exact_maps two 1 QoS.processed)
    × ((unsubscribe exact_maps 1 (codes "t") QoS.processed two).0
        ≡ answer_for exact_maps two 1 QoS.processed)
    × ((subscribe_bulk exact_maps 1 (codes "t" ∷ codes "u" ∷ []) QoS.processed two).0
        ≡ answer_for exact_maps two 1 QoS.processed)
    × ((unsubscribe_bulk exact_maps 1 (codes "t" ∷ codes "u" ∷ []) QoS.processed two).0
        ≡ answer_for exact_maps two 1 QoS.processed)
subscribing-answer_example =
    subscribing-answer exact_maps two 1 (codes "t") (codes "u" ∷ []) QoS.processed
      Safe-two.consistent
