-- ===== src/Attach/Codec.antt =====
-- The codec of one frame: what `decode` makes of the payload that `encode` writes.
use rill.Prelude.{
  ℕ, ◌^◌, ◌<◌, ◌≡◌, refl, Bool, not, ◌&&◌, ◌||◌, none, some, arith, ◌==◌, if◌then◌else◌, ok,
}
use rill.Attach.Bytes.{le_bytes, from_le-le_bytes}
use rill.Attach.Frame.{
  Tag, Frame, RefuseReason, already_attached, invalid, protocol_mismatch, bytes_frame, credit_frame,
  resize_frame, exit_frame, attach_frame, refused_frame, checkpoint_frame, delta_frame,
  resync_frame, protocol_version, tag, tag_byte, tag_from_u8, reason_byte, reason_from_u8,
  attach_flags, attach_payload, payload, read_le, decode_attach, decode, data_tag, credit, resize,
  exit, attach, refused, checkpoint, delta, resync_request,
}

-- The values have the widths of the frame's fields.
abbrev pub InRange : Frame → Type 0
InRange (bytes_frame b) = Unit {0}
InRange (credit_frame n) = n < 256 ^ 4
InRange (resize_frame cols rows px_w px_h) =
    (cols < 256 ^ 2) × (rows < 256 ^ 2) × (px_w < 256 ^ 2) × (px_h < 256 ^ 2)
InRange (exit_frame status) = status < 256 ^ 4
InRange (attach_frame generation none protocol observe) = generation < 256 ^ 8
InRange (attach_frame generation (some id) protocol observe) =
    (generation < 256 ^ 8) × (id < 256 ^ 8)
InRange (refused_frame reason) = Unit {0}
InRange (checkpoint_frame ending hash blob) = (ending < 256 ^ 8) × (hash < 256 ^ 8)
InRange (delta_frame start b) = start < 256 ^ 8
InRange resync_frame = Unit {0}

abbrev pub is_extra : ℕ → Bool → Bool
is_extra protocol observe = not (protocol == protocol_version) || observe

-- What arrives of a frame: an attach frame with a protocol byte cannot name session 0.
abbrev pub received : Frame → Frame
received (attach_frame generation (some id) protocol observe) =
    attach_frame generation (if is_extra protocol observe && id == 0 then none else some id)
      protocol observe
received f = f

decode-attach_none :
    (generation protocol : ℕ) (observe : Bool)
    → generation < 256 ^ 8
    → decode_attach (attach_payload generation none protocol observe)
      ≡ ok (attach_frame generation none protocol observe)
unfolding decode_attach attach_payload attach_flags read_le le_bytes
decode-attach_none generation protocol observe g =
    ground (arith, from_le-le_bytes 8 generation g, from_le-le_bytes 8 0 (omega arith))

decode-attach_some :
    (generation id protocol : ℕ) (observe : Bool)
    → generation < 256 ^ 8
    → id < 256 ^ 8
    → decode_attach (attach_payload generation (some id) protocol observe)
      ≡ ok (received (attach_frame generation (some id) protocol observe))
unfolding decode_attach attach_payload attach_flags read_le le_bytes
decode-attach_some generation id protocol observe g i =
    ground (arith, from_le-le_bytes 8 generation g, from_le-le_bytes 8 id i)

reason_from_u8-reason_byte : (r : RefuseReason) → reason_from_u8 (reason_byte r) ≡ ok r
unfolding reason_from_u8 reason_byte
reason_from_u8-reason_byte already_attached = refl
reason_from_u8-reason_byte invalid = refl
reason_from_u8-reason_byte protocol_mismatch = refl

pub tag_from_u8-tag_byte : (t : Tag) → tag_from_u8 (tag_byte t) ≡ ok t
unfolding tag_from_u8 tag_byte
tag_from_u8-tag_byte data_tag = refl
tag_from_u8-tag_byte credit = refl
tag_from_u8-tag_byte resize = refl
tag_from_u8-tag_byte exit = refl
tag_from_u8-tag_byte attach = refl
tag_from_u8-tag_byte refused = refl
tag_from_u8-tag_byte checkpoint = refl
tag_from_u8-tag_byte delta = refl
tag_from_u8-tag_byte resync_request = refl

-- The payload that `encode` writes decodes to the frame, for values of the fields' widths; but an
-- attach frame that needs the protocol byte and names session 0 arrives as one that names none.
pub decode-payload : (f : Frame) → InRange f → decode (tag f) (payload f) ≡ ok (received f)
unfolding tag decode payload read_le le_bytes
decode-payload (bytes_frame b) r = refl
decode-payload (credit_frame n) r = ground (arith, from_le-le_bytes 4 n r)
decode-payload (resize_frame cols rows px_w px_h) r = ground (
  arith,
  from_le-le_bytes 2 cols r.0,
  from_le-le_bytes 2 rows r.1,
  from_le-le_bytes 2 px_w r.2,
  from_le-le_bytes 2 px_h r.3,
)
decode-payload (exit_frame status) r = ground (arith, from_le-le_bytes 4 status r)
decode-payload (attach_frame generation none protocol observe) r =
    decode-attach_none generation protocol observe r
decode-payload (attach_frame generation (some id) protocol observe) r =
    decode-attach_some generation id protocol observe r.0 r.1
decode-payload (refused_frame reason) r = rw (reason_from_u8-reason_byte reason)
decode-payload (checkpoint_frame ending hash blob) r =
    ground (arith, from_le-le_bytes 8 ending r.0, from_le-le_bytes 8 hash r.1)
decode-payload (delta_frame start b) r = ground (arith, from_le-le_bytes 8 start r)
decode-payload resync_frame r = refl
