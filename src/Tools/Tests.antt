-- ===== src/Tools/Tests.antt =====
-- The theorems on the topic broker at a concrete broker: one topic and one prefix are registered.
use elbus.Base.{◌≡◌, refl, false, [], ◌∷◌, some, none, codes, eq_bytes}
use elbus.Proto.{FrameKind, FrameData}
use elbus.Stream.{done}
use elbus.Broker.Db.{lookup}
use elbus.Tools.Pubsub.{TopicBroker, Processed, route, process, register_topic, register_prefix}
use elbus.Tools.Pubsub.Routing.{Goes, route-Goes}
use elbus.Tools.Pubsub.Handling.{IsOrdered, Taken, register-Taken, Handled, process-Handled}

abbrev broker : TopicBroker
broker = record { prefixes = (codes "unit/", 2) ∷ []; topics = (codes "unit/all", 1) ∷ [] }

broker-IsOrdered : IsOrdered broker
broker-IsOrdered = record { topics = (tt, tt); prefixes = (tt, tt) }

abbrev frame : FrameData
frame = record {
  kind = FrameKind.publish;
  sender = some (codes "a");
  topic = some (codes "unit/x");
  header = none;
  buf = codes "on";
  payload_pos = 0;
  realtime = false;
}

abbrev handled : Processed
handled = record { returned = none; sent = some (2, record { subtopic_pos = 5; frame = frame }) }

route-Goes_example : Goes broker (codes "unit/x") (route broker (codes "unit/x"))
route-Goes_example = route-Goes broker (codes "unit/x") (tt, tt)

register-Taken_example :
    Taken
      (codes "unit/all")
      3
      (lookup (codes "unit/all") broker.topics)
      broker
      (register_topic broker (codes "unit/all") 3)
      (λ n. lookup n broker.topics)
      (λ n. lookup n (register_topic broker (codes "unit/all") 3).1.topics)
    × IsOrdered (register_topic broker (codes "unit/all") 3).1
    × ((register_topic broker (codes "unit/all") 3).1.prefixes ≡ broker.prefixes)
    × Taken
        (codes "unit/all")
        3
        (lookup (codes "unit/all") broker.prefixes)
        broker
        (register_prefix broker (codes "unit/all") 3)
        (λ n. lookup n broker.prefixes)
        (λ n. lookup n (register_prefix broker (codes "unit/all") 3).1.prefixes)
    × IsOrdered (register_prefix broker (codes "unit/all") 3).1
    × ((register_prefix broker (codes "unit/all") 3).1.topics ≡ broker.topics)
register-Taken_example = register-Taken broker (codes "unit/all") 3 broker-IsOrdered

handled_frame : process (λ tx p. done tt) broker frame ≡ done handled
unfolding process lookup eq_bytes
handled_frame = refl

process-Handled_example : Handled broker frame handled
process-Handled_example =
    process-Handled (λ tx p. done tt) broker frame handled broker-IsOrdered handled_frame
