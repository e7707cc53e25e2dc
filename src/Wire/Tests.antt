-- ===== src/Wire/Tests.antt =====
-- The theorems on the wire at concrete inputs.
mod Connections
mod Transit
mod Calls
use elbus.Base.{
  ◌≡◌, ◌≢◌, refl, arith, true, false, List, [], ◌∷◌, ◌++◌, valid_utf8, some, none, codes, inl,
}
use elbus.Proto.{FrameKind, FrameData}
use elbus.Comm.{Write, written_bytes}
use elbus.Stream.{closed}
use elbus.Broker.Request.{read_header}
use elbus.Broker.Writer.{write_frames}
use elbus.Ipc.{Client, config_new}
use elbus.Ipc.Read.{takes, Reader, handle_read, on_fuel}
use elbus.Wire.Requests.{read_header_chunks}
use elbus.Wire.Frames.{stream}
use elbus.Wire.Delivery.{IsRouted, direct, publication}
use elbus.Wire.Streams.{handle_read-write_frames, after_frames, stop_of}
use elbus.Wire.Acks.{handle_read_total}

abbrev client : Client
client = record {
  name = codes "a";
  written = [];
  reading = true;
  frame_id = 7;
  responses = 7 ∷ [];
  has_events = true;
  connected = true;
  config = config_new (codes "/tmp/b.sock") (codes "a");
  secondary_counter = 0;
}

abbrev reader : Reader
reader = record { responses = 7 ∷ []; resolved = []; delivered = []; listening = takes }

abbrev hello : FrameData
hello = record {
  kind = FrameKind.message;
  sender = some (codes "a");
  topic = none;
  header = some (codes "he");
  buf = codes "b" ++ (0 ∷ codes "llo");
  payload_pos = 2;
  realtime = true;
}

abbrev news : FrameData
news = record {
  kind = FrameKind.publish;
  sender = some (codes "a");
  topic = some (codes "t/1");
  header = none;
  buf = codes "t/1" ++ (0 ∷ codes "news");
  payload_pos = 4;
  realtime = false;
}

hello-IsRouted : IsRouted hello
unfolding valid_utf8
hello-IsRouted =
    direct (codes "a") (inl refl) refl refl (refl, omega arith) (omega arith) (omega arith)

news-IsRouted : IsRouted news
unfolding valid_utf8
news-IsRouted =
    publication (codes "a") (codes "t/1") refl refl refl (refl, omega arith) (refl, omega arith)
      (omega arith) (omega arith)

handle_read-write_frames_example :
    (ws : List Write) × (write_frames (hello ∷ news ∷ []) ≡ some ws)
    × (handle_read reader (stream (written_bytes ws) closed)
        ≡ (after_frames reader (hello ∷ news ∷ []), stop_of closed))
handle_read-write_frames_example =
    handle_read-write_frames (hello ∷ news ∷ []) reader closed (hello-IsRouted, (news-IsRouted, tt))
      refl

handle_read_total_example : (handle_read reader (stream (1 ∷ 2 ∷ []) closed)).1 ≢ on_fuel
handle_read_total_example = handle_read_total reader (stream (1 ∷ 2 ∷ []) closed)

read_header_chunks_example :
    read_header 3 (stream (1 ∷ 0 ∷ 0 ∷ 0 ∷ 0 ∷ []) closed)
    ≡ read_header 9 (stream (1 ∷ 0 ∷ 0 ∷ 0 ∷ 0 ∷ []) closed)
read_header_chunks_example = read_header_chunks 3 9 (stream (1 ∷ 0 ∷ 0 ∷ 0 ∷ 0 ∷ []) closed)
