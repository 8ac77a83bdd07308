-- ===== src/StreamFile/Examples.antt =====
-- Concrete files and redirections.
use cnc_3d.Common.{◌≡◌, refl, arith, true, false, none, some, [], ◌∷◌, ◌++◌}
use cnc_3d.StreamFile.{
  Streams, RdStream, device, file_type, device_read, file_read, stream_redirect_read,
  stream_redirect_close,
}
use cnc_3d.StreamFile.Reader.{delivered, lines, calls, delivered-lines}
use cnc_3d.StreamFile.Redirect.{source, close-read}

abbrev serial : Streams
serial = record {
  rd_streams = [];
  type = device 0;
  read = device_read 0;
  file = none;
  file_stream = false;
  error_handler_ok = false;
}

-- A file 1 called from the serial stream, and a file 2 called from that.
abbrev nested : Streams
nested = record {
  rd_streams = first ∷ second ∷ [];
  type = file_type;
  read = file_read;
  file = some 2;
  file_stream = false;
  error_handler_ok = true;
}
  where
    first : RdStream
    first = record {
      type = device 0;
      read = device_read 0;
      file = none;
      file_new = 1;
      status_handler = none;
      eof_handler = none;
    }

    second : RdStream
    second = record {
      type = file_type;
      read = file_read;
      file = some 1;
      file_new = 2;
      status_handler = none;
      eof_handler = none;
    }

close-read_example :
    let s' = stream_redirect_close 1 (stream_redirect_read (some 1) true none none serial).1 in
    (source s' ≡ source serial) × (s'.rd_streams ≡ [])
close-read_example = close-read 1 none none serial (omega arith) tt

delivered-lines_example :
    delivered
      (calls false (b'G' ∷ 13 ∷ 10 ∷ b'M' ∷ []))
      (record { eol_ok = false; rest = b'G' ∷ 13 ∷ 10 ∷ b'M' ∷ [] })
    ≡ lines false (b'G' ∷ 13 ∷ 10 ∷ b'M' ∷ []) ++ (0x1a ∷ [])
delivered-lines_example = delivered-lines false (b'G' ∷ 13 ∷ 10 ∷ b'M' ∷ [])

two_lines : lines false (b'G' ∷ 13 ∷ 10 ∷ b'M' ∷ []) ≡ b'G' ∷ 13 ∷ b'M' ∷ 10 ∷ []
unfolding lines
two_lines = refl
