-- ===== src/StreamFile.antt =====
-- stm32_firmware/core-master/stream_file.c: input taken from files, with the redirections nested as
-- a list of `rd_stream_t`, and the reader that ends every file with a line feed and an EOF mark.
pub mod Reader
pub mod Redirect
mod Examples
use cnc_3d.Common.{
  ℕ, zero, suc, Bool, true, false, Option, none, some, List, [], ◌∷◌, ◌++◌, ◌||◌, ◌==◌,
  if◌then◌else◌,
}

-- What `hal.stream.read` returns: SERIAL_NO_DATA, or a character.
pub data Input : Type 0 where
  no_data : Input
  char : ℕ → Input

abbrev pub ascii_lf : ℕ
ascii_lf = 10

abbrev pub ascii_cr : ℕ
ascii_cr = 13

abbrev pub ascii_eof : ℕ
ascii_eof = 0x1a

abbrev pub is_eol : ℕ → Bool
is_eol c = c == ascii_cr || c == ascii_lf

-- The static `eol_ok` and what is left to read of `hal.stream.file`.
pub record FileReader : Type 0 where
  pub eol_ok : Bool
  pub rest : List ℕ

-- `stream_read_file` with a file open: `vfs_read` returns the next byte of `rest`, or none.
unfoldable pub read_open : FileReader → Input × FileReader
read_open r = elim r.rest [
  | c ∷ rest ↦
      if is_eol c
      then (if r.eol_ok
          then (no_data, record r { rest = rest })
          else (char c, record r { eol_ok = true; rest = rest }))
      else (char c, record r { eol_ok = false; rest = rest })
  | [] ↦
      if r.eol_ok
      then (char ascii_eof, record r { eol_ok = false })
      else (char ascii_lf, record r { eol_ok = true })
]

-- `stream_read_file`; with no file there is nothing to read.
unfoldable pub stream_read_file : Option ℕ → FileReader → Input × FileReader
stream_read_file none r = (no_data, r)
stream_read_file (some file) r = read_open r

-- The reader that `hal.stream.read` points to.
pub data ReadFn : Type 0 where
  device_read : ℕ → ReadFn
  file_read : ReadFn

pub data StreamType : Type 0 where
  device : ℕ → StreamType
  file_type : StreamType

-- `rd_stream_t` but for its `next`: the list is the chain. Handlers are named by numbers.
pub record RdStream : Type 0 where
  pub type : StreamType
  pub read : ReadFn
  pub file : Option ℕ
  pub file_new : ℕ
  pub status_handler : Option ℕ
  pub eof_handler : Option ℕ

-- `rd_streams`, the part of `hal.stream` that this file writes, `gc_state.file_stream` and
-- `error_handler_ok`.
pub record Streams : Type 0 where
  pub rd_streams : List RdStream
  pub type : StreamType
  pub read : ReadFn
  pub file : Option ℕ
  pub file_stream : Bool
  pub error_handler_ok : Bool

unfoldable pub stream_set_type : StreamType → Option ℕ → Streams → Streams
stream_set_type type file s = record s {
  type = type;
  file = file;
  file_stream = elim file [ none ↦ false | some f ↦ s.file_stream ];
}

-- The loop that should append to `rd_streams`. Its condition compares where it means to step,
-- `while((streams == streams->next))`: it looks at the first node and stops.
pub append_stream : RdStream → List RdStream → List RdStream
append_stream new [] = new ∷ []
append_stream new (s ∷ []) = s ∷ new ∷ []
append_stream new (s ∷ t ∷ rest) = s ∷ t ∷ rest

-- `stream_redirect_read`: what `vfs_open` returns and whether `malloc` succeeds are arguments.
-- The replacement of the report handlers is the flag `error_handler_ok`.
unfoldable pub stream_redirect_read :
    Option ℕ → Bool → Option ℕ → Option ℕ → Streams → Option ℕ × Streams
unfolding stream_set_type
stream_redirect_read none malloc_ok status_handler eof_handler s = (none, s)
stream_redirect_read (some file) false status_handler eof_handler s = (none, s)
stream_redirect_read (some file) true status_handler eof_handler s =
    let new : RdStream = record {
      type = s.type;
      read = s.read;
      file = s.file;
      file_new = file;
      status_handler = status_handler;
      eof_handler = eof_handler;
    } in
    let s' = stream_set_type file_type (some file) (record s { read = file_read }) in
    (some file, record s' { rd_streams = append_stream new s.rd_streams; error_handler_ok = true })

-- The search of `stream_redirect_close`: the stream found and the chain without it.
pub unlink : ℕ → List RdStream → Option (RdStream × List RdStream)
unlink file [] = none
unlink file (s ∷ rest) =
    if s.file_new == file
    then some (s, rest)
    else elim (unlink file rest) [ none ↦ none | some (found, rest') ↦ some (found, s ∷ rest') ]

unfoldable pub stream_redirect_close : ℕ → Streams → Streams
unfolding stream_set_type
stream_redirect_close file s = elim (unlink file s.rd_streams) [
  | none ↦ s
  | some (stream, rest) ↦
      record (stream_set_type stream.type stream.file (record s { read = stream.read })) {
        rd_streams = rest;
      }
]

-- The last stream of the chain, whose handlers are called.
last_stream : List RdStream → Option RdStream
last_stream [] = none
last_stream (s ∷ []) = some s
last_stream (s ∷ t ∷ rest) = last_stream (t ∷ rest)

-- What `trap_status_messages` does with a status: the original report function, a stream's
-- handler, or nothing.
pub data Reported : Type 0 where
  to_original : Reported
  to_handler : ℕ → Reported
  dropped : Reported

-- Status_Unhandled
abbrev pub status_unhandled : ℕ
status_unhandled = 255

unfoldable pub trap_status_messages : ℕ → Streams → Reported
unfolding last_stream
trap_status_messages status s = elim (last_stream s.rd_streams) [
  | none ↦ to_original
  | some stream ↦
      if status == 0 || status == status_unhandled
      then dropped
      else elim stream.status_handler [ none ↦ dropped | some h ↦ to_handler h ]
]
