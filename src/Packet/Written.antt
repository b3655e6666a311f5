-- ===== src/Packet/Written.antt =====
-- include/memorypack/packet.hpp, WritePacket: the vector that it leaves, and the frame that a
-- parser finds in it.
use memory_pack_cpp.Base.{
  ℕ, ◌-◌, ◌<◌, ◌^◌, ◌%◌, ◌≡◌, ◌∙◌, refl, sym, ap, Bool, List, ◌++◌, length, replicate, arith,
  length-append, drop-drop, take-append, drop-append, append_assoc,
}
use memory_pack_cpp.Outcome.{returned}
use memory_pack_cpp.Writer.{Writer, vector_writer, written}
use memory_pack_cpp.Format.{Formatter, Lawful}
use memory_pack_cpp.Packet.{header_size, header_bytes, patch, write_packet}

-- Writing a header over as many reserved bytes keeps what stands around them.
patch-reserved :
    (before reserved src after : List ℕ)
    → length src ≡ length reserved
    → patch ((before ++ reserved) ++ after) (length before) src ≡ before ++ (src ++ after)
patch-reserved before reserved src after same =
    rw
      (
        append_assoc before reserved after,
        take-append before (reserved ++ after),
        sym (drop-drop (length before) (length src) (before ++ (reserved ++ after))),
        drop-append before (reserved ++ after),
        same,
        drop-append reserved after,
      )
      refl

-- The header that is written gives the exact length of what stands after the reserved bytes.
pub patch-header :
    (out wire full : List ℕ) (id : ℕ)
    → full ≡ (out ++ replicate header_size 0) ++ wire
    → length wire < 2 ^ 31
    → patch full (length out) (header_bytes id ((length full - length out - header_size) % 2 ^ 32))
      ≡ out ++ (header_bytes id (length wire) ++ wire)
patch-header out wire full id e small =
    let body_length : (length full - length out - header_size) % 2 ^ 32 ≡ length wire =
      let whole = ap length e ∙ length-append (out ++ replicate 6 0) wire in
      let start = length-append out (replicate 6 0) in omega arith in
    rw (body_length, e)
      (patch-reserved out (replicate 6 0) (header_bytes id (length wire)) wire refl)

module _ (exceptions : Bool) {A : Type 0} (F : Formatter A) (L : Lawful F) where
  -- A packet: the header with the exact length of the body, and the body's encoding.
  abbrev pub packet_wire : ℕ → A → List ℕ
  packet_wire id v = header_bytes id (length (L.wire v)) ++ L.wire v

  -- `WritePacket` appends a packet to what the vector held, and changes nothing before it.
  pub write_packet-wire :
      (out : List ℕ) (id : ℕ) (v : A)
      → L.IsEncodable v
      → length (L.wire v) < 2 ^ 31
      → length out < 2 ^ 61
      → (w : Writer) × (write_packet exceptions F out id v ≡ returned (out ++ packet_wire id v) w)
  unfolding write_packet written
  write_packet-wire out id v h small fits =
      let reserved : List ℕ = out ++ replicate header_size 0 in
      let (w, e, p) =
        L.writes v h (vector_writer exceptions reserved)
          (record { owned_fits = omega arith; fixed_fits = tt })
          (let size = length-append out (replicate 6 0) in omega arith) in
      (
        w,
        rw (write_packet, e)
            (ap (λ bytes. returned bytes w)
              (patch-header out (L.wire v) (written w) id p.appended small)),
      )
