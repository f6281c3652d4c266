-- ===== src/Frame.antt =====
-- rampardos/internal/services/renderer/protocol.go: length-prefixed frames between the server and a
-- render worker. A byte is a number below 256. A reader is the bytes that are still to come before
-- the end of the stream; a writer keeps what it was given, and its Write calls fail as its list of
-- outcomes says (`true` is a failure).
use rampardos.Prelude.{
  ℕ, ◌+◌, ◌*◌, ◌/◌, ◌%◌, ◌^◌, ◌==◌, ltb, if◌then◌else◌, Bool, true, false, Option, some, none, List,
  [], ◌∷◌, ◌++◌, length, take, drop,
}
pub mod Words
pub mod RoundTrip

abbrev pub frame_request : ℕ
frame_request = b'R'

abbrev pub frame_ok : ℕ
frame_ok = b'K'

abbrev pub frame_error : ℕ
frame_error = b'E'

abbrev pub frame_handshake : ℕ
frame_handshake = b'H'

abbrev pub frame_header_size : ℕ
frame_header_size = 5

abbrev pub max_frame_size : ℕ
max_frame_size = 64 * 1024 * 1024

pub record Writer : Type 0 where
  pub written : List ℕ
  pub outcomes : List Bool

-- `w.Write(p)`: whether it failed.
unfoldable pub write : List ℕ → Writer → Writer × Bool
write p w = elim (w.outcomes) [
  | [] ↦ (record w { written = w.written ++ p }, false)
  | true ∷ rest ↦ (record w { outcomes = rest }, true)
  | false ∷ rest ↦ (record { written = w.written ++ p; outcomes = rest }, false)
]

-- `binary.BigEndian.PutUint32` of `uint32(n)`.
abbrev pub put_uint32 : ℕ → List ℕ
put_uint32 n = n / 2 ^ 24 % 256 ∷ n / 2 ^ 16 % 256 ∷ n / 2 ^ 8 % 256 ∷ n % 256 ∷ []

pub data WriteError : Type 0 where
  payload_too_large write_failed : WriteError

-- The second Write, if the header could be written.
unfoldable pub write_payload : List ℕ → Writer → Bool → Writer × Option WriteError
write_payload payload w true = (w, some write_failed)
write_payload [] w false = (w, none)
write_payload (x ∷ payload) w false =
    let (w', failed) = write (x ∷ payload) w in (w', if failed then some write_failed else none)

unfoldable pub write_frame : ℕ → List ℕ → Writer → Writer × Option WriteError
unfolding write_payload
write_frame typ payload w =
    let (w', failed) = write (typ ∷ put_uint32 (length payload)) w in
    if ltb max_frame_size (length payload)
    then (w, some payload_too_large)
    else write_payload payload w' failed

-- `binary.BigEndian.Uint32`.
abbrev pub uint32 : ℕ → ℕ → ℕ → ℕ → ℕ
uint32 a b c d = a * 2 ^ 24 + b * 2 ^ 16 + c * 2 ^ 8 + d

pub data ReadError : Type 0 where
  -- `io.EOF`: no byte of a new frame.
  eof header_failed frame_too_large payload_failed : ReadError

pub record Frame : Type 0 where
  pub typ : ℕ
  pub payload : List ℕ

pub data ReadResult : Type 0 where
  -- The frame, and what is left of the stream.
  frame : Frame → List ℕ → ReadResult
  failed : ReadError → ReadResult

-- The payload, after the header: `io.ReadFull` of `n` bytes.
unfoldable pub read_payload : ℕ → ℕ → List ℕ → ReadResult
read_payload typ n stream =
    if ltb max_frame_size n
    then failed frame_too_large
    else if n == 0
    then frame (record { typ = typ; payload = [] }) stream
    else if ltb (length stream) n
    then failed payload_failed
    else frame (record { typ = typ; payload = take n stream }) (drop n stream)

unfoldable pub read_frame : List ℕ → ReadResult
unfolding read_payload
read_frame [] = failed eof
read_frame (t ∷ a ∷ b ∷ c ∷ d ∷ stream) = read_payload t (uint32 a b c d) stream
read_frame (_ ∷ _) = failed header_failed
