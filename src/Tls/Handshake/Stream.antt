-- ===== src/Tls/Handshake/Stream.antt =====
-- HandshakeStream: the plaintext handshake bytes of one direction, and where each came from.
pub mod Bounds
use securemailscope.Base.{
  ℕ, ◌+◌, ◌-◌, Bool, true, false, ◌||◌, List, [], ◌∷◌, ◌++◌, Option, none, some, length, min, max,
  ltb, leb, if◌then◌else◌,
}
use securemailscope.Evidence.{PacketReference, add_refs}
use securemailscope.Tls.Records.{RecordFragment}

-- _Fragment
pub record Piece : Type 0 where
  pub buffer_start : ℕ
  pub stream_offset : ℕ
  pub length_of : ℕ
  pub record_index : ℕ
  pub packets : List PacketReference

pub record HandshakeStream : Type 0 where
  pub buffer : List ℕ
  pub pieces : List Piece
  pub overflowed : Bool

abbrev pub empty_stream : HandshakeStream
empty_stream = record { buffer = []; pieces = []; overflowed = false }

unfoldable pub piece_of : HandshakeStream → RecordFragment → Piece
piece_of s f = record {
  buffer_start = length s.buffer;
  stream_offset = f.body_offset;
  length_of = length f.body;
  record_index = f.index;
  packets = f.observation.packets;
}

-- The flag of the result is false when the limit is hit.
unfoldable pub append : HandshakeStream → RecordFragment → ℕ → Bool × HandshakeStream
unfolding piece_of
append s f limit =
    if ltb limit (length s.buffer + length f.body)
    then (false, record s { overflowed = true })
    else (true, record s { pieces = s.pieces ++ piece_of s f ∷ []; buffer = s.buffer ++ f.body })

-- The variables of `locate`'s loop.
pub record Located : Type 0 where
  pub stream_start : Option ℕ
  pub stream_end : ℕ
  pub records : List ℕ
  pub seen : List PacketReference

first_of_two : Option ℕ → ℕ → Option ℕ
first_of_two none n = some n
first_of_two (some m) n = some m

unfoldable pub locate_piece : ℕ → ℕ → Piece → Located → Located
unfolding first_of_two
locate_piece start end f l =
    let piece_end = f.buffer_start + f.length_of in
    if leb piece_end start || leb end f.buffer_start then l else record {
      stream_start = first_of_two l.stream_start (f.stream_offset + (start - f.buffer_start));
      stream_end = f.stream_offset + (min end piece_end - f.buffer_start);
      records = l.records ++ f.record_index ∷ [];
      seen = add_refs f.packets l.seen;
    }

unfoldable pub locate_pieces : ℕ → ℕ → List Piece → Located → Located
unfolding locate_piece
locate_pieces start end [] l = l
locate_pieces start end (f ∷ fs) l = locate_pieces start end fs (locate_piece start end f l)

abbrev pub nowhere : Located
nowhere = record { stream_start = none; stream_end = 0; records = []; seen = [] }

last_offset : List Piece → ℕ
last_offset [] = 0
last_offset (f ∷ []) = f.stream_offset
last_offset (f ∷ g ∷ fs) = last_offset (g ∷ fs)

-- Where a range of the buffer lies in the stream, with the records and packets that carried it.
pub record Place : Type 0 where
  pub stream_start : ℕ
  pub stream_end : ℕ
  pub records : List ℕ
  pub packets : List PacketReference

placed : Located → ℕ → Option ℕ → Place
placed l fallback none = record {
  stream_start = fallback;
  stream_end = fallback;
  records = l.records;
  packets = l.seen;
}
placed l fallback (some start) = record {
  stream_start = start;
  stream_end = l.stream_end;
  records = l.records;
  packets = l.seen;
}

unfoldable pub locate : HandshakeStream → ℕ → ℕ → Place
unfolding locate_pieces placed last_offset
locate s start length_of =
    let l = locate_pieces start (start + max length_of 1) s.pieces nowhere in
    placed l (last_offset s.pieces) l.stream_start
