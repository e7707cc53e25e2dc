-- ===== src/Proto/Display.antt =====
-- src/lib.rs: `Display` for `ErrorKind` and `Error`.
use elbus.Base.{Bytes, ◌++◌, none, some, codes}
use elbus.Proto.{
  ErrorKind, not_registered, not_supported, io, timeout, bad_data, busy, not_delivered, other,
  access, eof, Message, Error,
}

kind_text : ErrorKind → Bytes
kind_text not_registered = codes "Client not registered"
kind_text not_supported = codes "Feature not supported"
kind_text io = codes "I/O Error"
kind_text timeout = codes "Timeout"
kind_text bad_data = codes "Data Error"
kind_text busy = codes "Busy"
kind_text not_delivered = codes "Frame not delivered"
kind_text other = codes "Error"
kind_text access = codes "Access denied"
kind_text eof = codes "Eof"

-- The text of a message is an argument.
unfoldable error_text : (Message → Bytes) → Error → Bytes
unfolding kind_text
error_text text e = elim e.message [
  | some m ↦ kind_text e.kind ++ (codes ": " ++ text m)
  | none ↦ kind_text e.kind
]
