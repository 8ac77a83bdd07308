-- ===== src/StreamFile/Redirect.antt =====
-- Nested redirections: what closing a file restores.
use cnc_3d.Common.{
  ℕ, ◌≤◌, ◌≡◌, ◌≢◌, refl, Bool, true, Option, none, some, List, [], ◌∷◌, arith, length,
}
use cnc_3d.StreamFile.{
  Streams, RdStream, StreamType, file_type, ReadFn, file_read, append_stream, unlink,
  stream_redirect_read, stream_redirect_close,
}

-- What a redirection replaces and a close gives back.
abbrev pub Source : Type 0
Source = StreamType × ReadFn × Option ℕ

abbrev pub source : Streams → Source
source s = (s.type, s.read, s.file)

-- The file is not one that is being read.
abbrev pub IsFresh : ℕ → List RdStream → Type 0
IsFresh f [] = Unit
IsFresh f (s ∷ rest) = (s.file_new ≢ f) × IsFresh f rest

unlink-IsFresh : (f : ℕ) (l : List RdStream) → IsFresh f l → unlink f l ≡ none
unfolding unlink
unlink-IsFresh f [] d = refl
unlink-IsFresh f (s ∷ rest) d = ground (arith, unlink-IsFresh f rest)

unlink-append_stream :
    (new : RdStream) (l : List RdStream)
    → length l ≤ 1
    → IsFresh new.file_new l
    → unlink new.file_new (append_stream new l) ≡ some (new, l)
unfolding unlink append_stream
unlink-append_stream new [] n d = ground arith
unlink-append_stream new (s ∷ []) n d = ground arith
unlink-append_stream new (s ∷ t ∷ rest) n d = absurd (omega arith)

append_stream_long : (new : RdStream) (l : List RdStream) → 2 ≤ length l → append_stream new l ≡ l
unfolding append_stream
append_stream_long new [] n = absurd (omega arith)
append_stream_long new (s ∷ []) n = absurd (omega arith)
append_stream_long new (s ∷ t ∷ rest) n = refl

-- The record of a redirection from `s` to `f`.
abbrev pub record_of : ℕ → Option ℕ → Option ℕ → Streams → RdStream
record_of f h e s = record {
  type = s.type;
  read = s.read;
  file = s.file;
  file_new = f;
  status_handler = h;
  eof_handler = e;
}

-- A close undoes the redirection that opened the file, the chain and the source of input included,
-- while at most one file is open already.
pub close-read :
    (f : ℕ) (h e : Option ℕ) (s : Streams)
    → length s.rd_streams ≤ 1
    → IsFresh f s.rd_streams
    → let s' = stream_redirect_close f (stream_redirect_read (some f) true h e s).1 in
      (source s' ≡ source s) × (s'.rd_streams ≡ s.rd_streams)
unfolding stream_redirect_read stream_redirect_close
close-read f h e s n d = ground (arith, unlink-append_stream (record_of f h e s) s.rd_streams)

-- With two or more files open, one more redirection switches the input to the new file but is not
-- recorded, and closing that file leaves the input there and the chain as it was.
pub close-read_lost :
    (f : ℕ) (h e : Option ℕ) (s : Streams)
    → 2 ≤ length s.rd_streams
    → IsFresh f s.rd_streams
    → let (opened, t) = stream_redirect_read (some f) true h e s in
      (opened ≡ some f)
      × (source t ≡ (file_type, file_read, some f))
      × (t.rd_streams ≡ s.rd_streams)
      × (stream_redirect_close f t ≡ t)
unfolding stream_redirect_read stream_redirect_close
close-read_lost f h e s n d =
    ground
      (arith, append_stream_long (record_of f h e s) s.rd_streams, unlink-IsFresh f s.rd_streams d)

-- A file that cannot be opened, or whose record cannot be allocated, leaves everything as it was.
pub read_fails :
    (file : Option ℕ) (ok : Bool) (h e : Option ℕ) (s : Streams)
    → (stream_redirect_read file ok h e s).0 ≡ none
    → (stream_redirect_read file ok h e s).1 ≡ s
unfolding stream_redirect_read
read_fails file ok h e s p = ground arith
