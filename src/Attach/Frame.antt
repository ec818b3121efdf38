-- ===== src/Attach/Frame.antt =====
-- `Tag`, `RefuseReason`, `Frame` and the codec of one frame. An `i32` is its bit pattern, and the
-- variant `Error::Io`, which the codec never makes, is left out.
use rill.Prelude.{
  ℕ, zero, suc, ◌*◌, ◌%◌, Bool, true, false, not, ◌||◌, List, [], ◌∷◌, ◌++◌, Option, none, some,
  ltb, ◌==◌, if◌then◌else◌, length, take, drop, Result, ok, err, ◌>>=◌,
}
use rill.Attach.Bytes.{le_bytes, from_le}

abbrev pub max_frame : ℕ
max_frame = 4 * 1024 * 1024

abbrev pub protocol_version : ℕ
protocol_version = 1

abbrev pub attach_flag_observe : ℕ
attach_flag_observe = 1

pub data Tag : Type 0 where
  data_tag credit resize exit attach refused checkpoint delta resync_request : Tag

pub data Error : Type 0 where
  unknown_tag : ℕ → Error
  unknown_refuse : ℕ → Error
  truncated : Error
  too_large : ℕ → Error

pub data RefuseReason : Type 0 where
  already_attached invalid protocol_mismatch : RefuseReason

-- `tag as u8`
unfoldable pub tag_byte : Tag → ℕ
tag_byte data_tag = 1
tag_byte credit = 2
tag_byte resize = 3
tag_byte exit = 4
tag_byte attach = 5
tag_byte refused = 6
tag_byte checkpoint = 7
tag_byte delta = 8
tag_byte resync_request = 9

unfoldable pub tag_from_u8 : ℕ → Result Error Tag
tag_from_u8 v =
    if v == 1
    then ok data_tag
    else if v == 2
    then ok credit
    else if v == 3
    then ok resize
    else if v == 4
    then ok exit
    else if v == 5
    then ok attach
    else if v == 6
    then ok refused
    else if v == 7
    then ok checkpoint
    else if v == 8
    then ok delta
    else if v == 9
    then ok resync_request
    else err (unknown_tag v)

unfoldable pub reason_byte : RefuseReason → ℕ
reason_byte already_attached = 1
reason_byte invalid = 2
reason_byte protocol_mismatch = 3

unfoldable pub reason_from_u8 : ℕ → Result Error RefuseReason
reason_from_u8 v =
    if v == 1
    then ok already_attached
    else if v == 2
    then ok invalid
    else if v == 3
    then ok protocol_mismatch
    else err (unknown_refuse v)

pub data Frame : Type 0 where
  -- the bytes
  bytes_frame : List ℕ → Frame
  credit_frame : ℕ → Frame
  -- columns, rows, and the size in pixels
  resize_frame : ℕ → ℕ → ℕ → ℕ → Frame
  exit_frame : ℕ → Frame
  -- generation, session, protocol, observe
  attach_frame : ℕ → Option ℕ → ℕ → Bool → Frame
  refused_frame : RefuseReason → Frame
  -- ending offset, hash, blob
  checkpoint_frame : ℕ → ℕ → List ℕ → Frame
  -- start offset, bytes
  delta_frame : ℕ → List ℕ → Frame
  resync_frame : Frame

unfoldable pub tag : Frame → Tag
tag (bytes_frame b) = data_tag
tag (credit_frame n) = credit
tag (resize_frame cols rows px_w px_h) = resize
tag (exit_frame status) = exit
tag (attach_frame generation session protocol observe) = attach
tag (refused_frame reason) = refused
tag (checkpoint_frame ending hash blob) = checkpoint
tag (delta_frame start b) = delta
tag resync_frame = resync_request

-- Only DATA and CREDIT belong on a keystroke.
unfoldable pub is_warm_path : Frame → Bool
is_warm_path (bytes_frame b) = true
is_warm_path (credit_frame n) = true
is_warm_path _ = false

unfoldable pub attach_flags : Bool → ℕ
attach_flags observe = if observe then attach_flag_observe else 0

unfoldable pub attach_payload : ℕ → Option ℕ → ℕ → Bool → List ℕ
attach_payload generation session protocol observe =
    let extra = not (protocol == protocol_version) || observe in
    let tail = if extra then protocol ∷ attach_flags observe ∷ [] else [] in
    elim session [
      | some id ↦ le_bytes 8 generation ++ (le_bytes 8 id ++ tail)
      | none ↦
          if extra then le_bytes 8 generation ++ (le_bytes 8 0 ++ tail) else le_bytes 8 generation
    ]

-- the payload of `encode`
unfoldable pub payload : Frame → List ℕ
payload (bytes_frame b) = b
payload (credit_frame n) = le_bytes 4 n
payload (resize_frame cols rows px_w px_h) =
    le_bytes 2 cols ++ (le_bytes 2 rows ++ (le_bytes 2 px_w ++ le_bytes 2 px_h))
payload (exit_frame status) = le_bytes 4 status
payload (attach_frame generation session protocol observe) =
    attach_payload generation session protocol observe
payload (refused_frame reason) = reason_byte reason ∷ []
payload (checkpoint_frame ending hash blob) = le_bytes 8 ending ++ (le_bytes 8 hash ++ blob)
payload (delta_frame start b) = le_bytes 8 start ++ b
payload resync_frame = []

unfoldable pub encode : Frame → Result Error (List ℕ)
encode f =
    if ltb max_frame (length (payload f))
    then err (too_large (length (payload f)))
    else ok (tag_byte (tag f) ∷ (le_bytes 4 (length (payload f)) ++ payload f))

-- `payload[i]`, after a test of the length
abbrev pub index : List ℕ → ℕ → ℕ
index [] i = 0
index (x ∷ xs) zero = x
index (x ∷ xs) (suc i) = index xs i

-- `payload[from..from + n]` as a number
abbrev pub le_at : ℕ → ℕ → List ℕ → ℕ
le_at from n p = from_le (take n (drop from p))

-- `read_u32`, `read_i32` and `read_u64`
unfoldable pub read_le : ℕ → List ℕ → Result Error ℕ
read_le n p = if length p == n then ok (from_le p) else err truncated

unfoldable pub decode_attach : List ℕ → Result Error Frame
decode_attach p =
    if length p == 8
    then (read_le 8 p >>= λ generation. ok (attach_frame generation none protocol_version false))
    else if length p == 16
    then ok (attach_frame (le_at 0 8 p) (some (le_at 8 8 p)) protocol_version false)
    else if length p == 18
    then (let raw_id = le_at 8 8 p in
        ok (
          attach_frame (le_at 0 8 p) (if raw_id == 0 then none else some raw_id) (index p 16)
            (index p 17 % 2 == 1)))
    else err truncated

unfoldable pub decode : Tag → List ℕ → Result Error Frame
decode data_tag p = ok (bytes_frame p)
decode credit p = read_le 4 p >>= λ n. ok (credit_frame n)
decode resize p =
    if length p == 8
    then ok (resize_frame (le_at 0 2 p) (le_at 2 2 p) (le_at 4 2 p) (le_at 6 2 p))
    else err truncated
decode exit p = read_le 4 p >>= λ status. ok (exit_frame status)
decode attach p = decode_attach p
decode refused p =
    if length p == 1
    then (reason_from_u8 (index p 0) >>= λ reason. ok (refused_frame reason))
    else err truncated
decode checkpoint p =
    if ltb (length p) 16
    then err truncated
    else ok (checkpoint_frame (le_at 0 8 p) (le_at 8 8 p) (drop 16 p))
decode delta p =
    if ltb (length p) 8 then err truncated else ok (delta_frame (le_at 0 8 p) (drop 8 p))
decode resync_request [] = ok resync_frame
decode resync_request (b ∷ p) = err truncated
