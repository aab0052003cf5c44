-- ===== src/Transport/Codec.antt =====
-- internal/transport/codec.go and the type `Frame` of frame.go: messages as lines of JSON. The
-- library for JSON is a parameter, and so are the answers of the writer's three calls. The bytes of a
-- stream are what the reader gives until its first error.
pub mod RoundTrip
use constellate.Common.{
  ℕ, ◌==◌, Bool, not, if◌then◌else◌, ◌⊎◌, inl, inr, Option, none, some, List, [], ◌∷◌, ◌++◌,
}
use constellate.Maps.{Text}

-- A message before it is decoded: the tag of its type, and its line.
pub record Frame : Type 0 where
  pub type_name : Text
  pub raw : Text

-- What `encoding/json` does with a value of the type `A`: the tag that a line has for its field
-- `type`, the text of a value, and the value of a line. Each of them can fail.
pub record Json {ℓ} (A : Type ℓ) : Type ℓ where
  pub header : Text → Option Text
  pub marshal : A → Option Text
  pub unmarshal : Text → Option A

pub data DecodeError : Type 0 where
  read_failed : DecodeError
  bad_header : DecodeError

pub data EncodeError : Type 0 where
  bad_message : EncodeError
  bad_write : EncodeError
  bad_newline : EncodeError
  bad_flush : EncodeError

-- What a call of `ReadBytes` gives: the line, the error, and the rest of the stream.
pub record Read : Type 0 where
  pub line : Text
  pub error : Option DecodeError
  pub rest : Text

unfoldable pub extend : ℕ → Read → Read
extend b r = record { line = b ∷ r.line; error = r.error; rest = r.rest }

-- `ReadBytes('\n')`: everything up to the first newline and with it, or all there is and the error.
unfoldable pub read_bytes : Text → Read
read_bytes [] = record { line = []; error = some read_failed; rest = [] }
read_bytes (b ∷ bs) =
    let r = read_bytes bs in
    if b == b'\n' then record { line = b ∷ []; error = none; rest = bs } else extend b r

unfoldable pub no_frame : Frame
no_frame = record { type_name = []; raw = [] }

-- The tag that the line has, or the error of one that is not JSON.
unfoldable pub frame_of : Option Text → Text → Option DecodeError → Frame × Option DecodeError
frame_of none line e = (no_frame, some bad_header)
frame_of (some t) line e = (record { type_name = t; raw = line }, e)

-- Behind the end the error alone; a line that is cut off is decoded, and given with the error.
unfoldable pub next_line :
    (Text → Option Text) → Text → Option DecodeError → Frame × Option DecodeError
next_line header [] (some e) = (no_frame, some e)
next_line header [] none = frame_of (header []) [] none
next_line header (b ∷ bs) e = frame_of (header (b ∷ bs)) (b ∷ bs) e

-- `Decoder.Next`: the frame, the error, and the rest of the stream.
unfoldable pub next : (Text → Option Text) → Text → (Frame × Option DecodeError) × Text
next header stream = let r = read_bytes stream in (next_line header r.line r.error, r.rest)

-- How the writer answers `Write`, `WriteByte` and `Flush`.
pub record Writes : Type 0 where
  pub takes_data : Bool
  pub takes_newline : Bool
  pub flushes : Bool

-- What `Encode` puts on the stream for a marshalled value if no call fails, or its error.
unfoldable pub encode_data : Option Text → Writes → EncodeError ⊎ Text
encode_data none w = inl bad_message
encode_data (some d) w =
    if not w.takes_data
    then inl bad_write
    else if not w.takes_newline
    then inl bad_newline
    else if not w.flushes
    then inl bad_flush
    else inr (d ++ b'\n' ∷ [])

-- `Encoder.Encode`.
unfoldable pub encode {ℓ} : {A : Type ℓ} → Json A → A → Writes → EncodeError ⊎ Text
encode json a w = encode_data (json.marshal a) w

-- `Unmarshal`.
unfoldable pub unmarshal_frame {ℓ} : {A : Type ℓ} → Json A → Frame → Option A
unmarshal_frame json f = json.unmarshal f.raw
