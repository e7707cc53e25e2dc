-- ===== src/Proto/Frame.antt =====
-- src/lib.rs: `FrameData`. Text is kept as its UTF-8 bytes; `none` stands for a panic.
use elbus.Base.{
  ℕ, Bool, false, Bytes, Option, none, some, [], length, take, drop, leb, if◌then◌else◌, find,
  codes,
}
use elbus.Proto.Op.{FrameKind}

abbrev pub secondary_sep : Bytes
secondary_sep = codes "%%"

pub record FrameData : Type 0 where
  pub kind : FrameKind
  pub sender : Option Bytes
  pub topic : Option Bytes
  pub header : Option Bytes
  pub buf : Bytes
  pub payload_pos : ℕ
  pub realtime : Bool

abbrev pub frame_new :
    FrameKind → Option Bytes → Option Bytes → Option Bytes → Bytes → ℕ → Bool → FrameData
frame_new kind sender topic header buf payload_pos realtime = record {
  kind = kind;
  sender = sender;
  topic = topic;
  header = header;
  buf = buf;
  payload_pos = payload_pos;
  realtime = realtime;
}

abbrev pub new_nop : FrameData
new_nop = record {
  kind = FrameKind.nop;
  sender = none;
  topic = none;
  header = none;
  buf = [];
  payload_pos = 0;
  realtime = false;
}

-- `&buf[pos..]`
unfoldable pub slice_from : ℕ → Bytes → Option Bytes
slice_from pos buf = if leb pos (length buf) then some (drop pos buf) else none

unfoldable pub payload : FrameData → Option Bytes
unfolding slice_from
payload f = slice_from f.payload_pos f.buf

-- the part of a name before the first "%%"
unfoldable pub primary_name : Bytes → Bytes
unfolding find
primary_name name = elim (find secondary_sep name) [ none ↦ name | some pos ↦ take pos name ]

-- `none` for a frame with no sender, where the source panics
unfoldable pub primary_sender : FrameData → Option Bytes
unfolding primary_name
primary_sender f = elim f.sender [ none ↦ none | some name ↦ some (primary_name name) ]
