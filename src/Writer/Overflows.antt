-- ===== src/Writer/Overflows.antt =====
-- include/memorypack/core.hpp, MemoryPackWriter over the caller's buffer: writes that record
-- BufferOverflow where the buffer has no room for all of their bytes.
use native.Mathlib.Decide.{dec_le}
use memory_pack_cpp.Base.{
  ℕ, ◌+◌, ◌-◌, ◌≤◌, ◌<◌, ◌≡◌, ◌⊎◌, inl, inr, ◌∙◌, ap, subst, sym, Bool, List, [], ◌∷◌, ◌++◌, length,
  Option, none, some, arith, to_le, length-append, length-take, le→leb, le→ltb, lt→ltb, ne→==false,
}
use memory_pack_cpp.Outcome.{
  MemoryPackError, no_error, buffer_overflow, first_error, Outcome, pure, ◌>>◌, Ensures, returns,
  throws, Ensures-bind, Ensures-if,
}
use memory_pack_cpp.Writer.{
  Writer, Write, mode, fixed_mode, fail, written, append_byte, append_bytes,
}
use memory_pack_cpp.Writer.Appends.{
  IsValid, Writes, capacity, append_byte-Writes, append_bytes-Writes,
}
use memory_pack_cpp.Writer.Headers.{write_raw, write_object_header}

-- A well-formed writer over the caller's buffer.
pub record OnFixed (w : Writer) : Type 0 where
  pub valid : IsValid w
  pub fixed : mode w ≡ fixed_mode

-- It has recorded that the buffer is too small.
pub record Overflowed (w : Writer) : Type 0 where
  pub on_fixed : OnFixed w
  pub recorded : w.error ≡ buffer_overflow

-- There is an overflow recorded, or there will be one with the next bytes `wire`.
abbrev pub Exceeds : Writer → List ℕ → Type 0
Exceeds w wire =
    (w.error ≡ buffer_overflow)
    ⊎ ((w.error ≡ no_error) × (capacity w < length (written w) + length wire))

abbrev pub Ends : Outcome Writer (Unit {0}) → Type 0
Ends o = Ensures (λ _ w. Overflowed w) Overflowed o

-- The write of the bytes `wire` records an overflow, where they do not fit, and keeps one that is
-- recorded.
abbrev pub Overflows : Write → List ℕ → Type 0
Overflows m wire = (w : Writer) → OnFixed w → Exceeds w wire → Ends (m w)

fail-Ends :
    (w : Writer)
    → OnFixed w
    → (w.error ≡ buffer_overflow) ⊎ (w.error ≡ no_error)
    → Ends (fail buffer_overflow w)
unfolding fail
fail-Ends w on e =
    let same : first_error w.error buffer_overflow ≡ buffer_overflow = elim e [
      | inl old ↦ ap (λ c. first_error c buffer_overflow) old
      | inr clean ↦ ap (λ c. first_error c buffer_overflow) clean
    ] in
    let over : Overflowed (record w { error = first_error w.error buffer_overflow }) = record {
      on_fixed = record {
        valid = record { owned_fits = on.valid.owned_fits; fixed_fits = on.valid.fixed_fits };
        fixed = on.fixed;
      };
      recorded = same;
    } in
    Ensures-if w.has_exceptions (λ _. throws over) (λ _. returns over)

append_byte-overflow :
    (b : ℕ) (owned : List ℕ) (owned_pos : ℕ) (vec fixed : Option (List ℕ)) (cap pos : ℕ)
    (error : MemoryPackError) (exceptions : Bool)
    → let w : Writer = record {
      owned = owned;
      owned_pos = owned_pos;
      vec = vec;
      fixed_buf = fixed;
      fixed_cap = cap;
      fixed_pos = pos;
      error = error;
      has_exceptions = exceptions;
    } in
      IsValid w
      → mode w ≡ fixed_mode
      → capacity w < length (written w) + 1
      → append_byte b w ≡ fail buffer_overflow w
unfolding append_byte written
append_byte-overflow b owned owned_pos (some v) fixed cap pos error exceptions ok e short = cc
append_byte-overflow b owned owned_pos none none cap pos error exceptions ok e short = cc
append_byte-overflow b owned owned_pos none (some u) cap pos error exceptions ok e short =
    rw (le→leb cap pos (omega (arith, ok.fixed_fits, length-take pos u)))

append_bytes-overflow :
    (src owned : List ℕ) (owned_pos : ℕ) (vec fixed : Option (List ℕ)) (cap pos : ℕ)
    (error : MemoryPackError) (exceptions : Bool)
    → let w : Writer = record {
      owned = owned;
      owned_pos = owned_pos;
      vec = vec;
      fixed_buf = fixed;
      fixed_cap = cap;
      fixed_pos = pos;
      error = error;
      has_exceptions = exceptions;
    } in
      IsValid w
      → mode w ≡ fixed_mode
      → capacity w < length (written w) + length src
      → append_bytes src w ≡ fail buffer_overflow w
unfolding append_bytes written
append_bytes-overflow src owned owned_pos (some v) fixed cap pos error exceptions ok e short = cc
append_bytes-overflow src owned owned_pos none none cap pos error exceptions ok e short = cc
append_bytes-overflow src owned owned_pos none (some u) cap pos error exceptions ok e short =
    let (size, inside) = ok.fixed_fits in
    let large : cap - pos < length src = omega (arith, length-take pos u) in
    rw (ne→==false (length src) 0 (omega arith), lt→ltb (cap - pos) (length src) large)

-- A write that keeps an overflow, since it writes its bytes where there is room and fails where there
-- is none.
Overflows-of :
    (m : Write) (wire : List ℕ)
    → Writes m wire
    → ((w : Writer)
        → OnFixed w
        → capacity w < length (written w) + length wire
        → m w ≡ fail buffer_overflow w)
    → Overflows m wire
Overflows-of m wire writes fails w on h =
    elim (dec_le (length (written w) + length wire) (capacity w)) [
      | no short ↦
          let e = fails w on (omega arith) in
          subst Ends (sym e)
            (fail-Ends w on (elim h [ inl old ↦ inl old | inr clean ↦ inr clean.0 ]))
      | yes room ↦ elim h [
        | inr clean ↦ absurd (omega (arith, clean.1))
        | inl old ↦
            let (w', e, p) = writes w on.valid room in
            subst Ends (sym e) (
              returns (record {
                on_fixed = record { valid = p.valid; fixed = p.same_mode ∙ on.fixed };
                recorded = p.same_error ∙ old;
              }))
      ]
    ]

pub append_byte-Overflows : (b : ℕ) → Overflows (append_byte b) (b ∷ [])
append_byte-Overflows b = Overflows-of (append_byte b) (b ∷ []) (append_byte-Writes b) λ w on short.
    append_byte-overflow b w.owned w.owned_pos w.vec w.fixed_buf w.fixed_cap w.fixed_pos w.error
      w.has_exceptions on.valid on.fixed short

pub append_bytes-Overflows : (src : List ℕ) → Overflows (append_bytes src) src
append_bytes-Overflows src =
    Overflows-of (append_bytes src) src (append_bytes-Writes src) λ w on short.
      append_bytes-overflow src w.owned w.owned_pos w.vec w.fixed_buf w.fixed_cap w.fixed_pos
        w.error w.has_exceptions on.valid on.fixed short

pub Overflows-nothing : Overflows (pure tt) []
unfolding append_bytes
Overflows-nothing w on exceeds = append_bytes-Overflows [] w on exceeds

-- In a sequence the first part writes its bytes or records the overflow, and the second part keeps it
-- or records its own.
pub Overflows-then :
    (m n : Write) (front back : List ℕ)
    → Writes m front
    → Overflows m front
    → Overflows n back
    → Overflows (m >> n) (front ++ back)
Overflows-then m n front back writes h k w on exceeds = elim exceeds [
  | inl old ↦ Ensures-bind (h w on (inl old)) (λ _ s q. k s q.on_fixed (inl q.recorded))
  | inr (clean, short) ↦ elim (dec_le (length (written w) + length front) (capacity w)) [
    | no less ↦
        Ensures-bind (h w on (inr (clean, omega arith))) (λ _ s q. k s q.on_fixed (inl q.recorded))
    | yes room ↦
        let (w', e, p) = writes w on.valid room in
        let on' : OnFixed w' = record { valid = p.valid; fixed = p.same_mode ∙ on.fixed } in
        let short' : capacity w' < length (written w') + length back = omega (
          arith,
          p.same_capacity,
          ap length p.appended,
          length-append (written w) front,
          length-append front back,
        ) in
        rw e (k w' on' (inr (p.same_error ∙ clean, short')))
  ]
]

pub write_raw-Overflows : (w v : ℕ) → Overflows (write_raw w v) (to_le w v)
unfolding write_raw
write_raw-Overflows w v = append_bytes-Overflows (to_le w v)

pub write_object_header-Overflows : (n : ℕ) → n ≤ 249 → Overflows (write_object_header n) (n ∷ [])
unfolding write_object_header
write_object_header-Overflows n h = rw (le→ltb 249 n h) (append_byte-Overflows n)
