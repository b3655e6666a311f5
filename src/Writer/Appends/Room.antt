-- ===== src/Writer/Appends/Room.antt =====
-- include/memorypack/core.hpp, MemoryPackWriter: how much a writer can hold, and writes that leave
-- exactly given bytes behind what was written.
use memory_pack_cpp.Base.{
  ℕ, ◌+◌, ◌≤◌, ◌^◌, ◌≡◌, ◌∙◌, refl, sym, ap, List, [], ◌++◌, length, Option, none, some, arith,
  append_assoc, append-nil, length-append,
}
use memory_pack_cpp.Outcome.{returned, pure, ◌>>◌}
use memory_pack_cpp.Writer.{Writer, Write, mode, written}

-- The caller's buffer has the length that the writer was told, and the position is in it.
abbrev pub FixedFits : Option (List ℕ) → ℕ → ℕ → Type 0
FixedFits none cap pos = Unit {0}
FixedFits (some buffer) cap pos = (length buffer ≡ cap) × (pos ≤ cap)

pub record IsValid (w : Writer) : Type 0 where
  pub owned_fits : w.owned_pos ≤ length w.owned
  pub fixed_fits : FixedFits w.fixed_buf w.fixed_cap w.fixed_pos

-- How much a writer can hold: its fixed buffer, else as much as memory is taken to have.
abbrev capacity_of : Option (List ℕ) → Option (List ℕ) → ℕ → ℕ
capacity_of (some v) b cap = 2 ^ 62
capacity_of none (some b) cap = cap
capacity_of none none cap = 2 ^ 62

abbrev pub capacity : Writer → ℕ
capacity w = capacity_of w.vec w.fixed_buf w.fixed_cap

-- What a write of the bytes `wire` leaves.
pub record Wrote (w : Writer) (wire : List ℕ) (w' : Writer) : Type 0 where
  pub valid : IsValid w'
  pub appended : written w' ≡ written w ++ wire
  pub same_mode : mode w' ≡ mode w
  pub same_capacity : capacity w' ≡ capacity w
  pub same_error : w'.error ≡ w.error
  pub same_build : w'.has_exceptions ≡ w.has_exceptions

abbrev pub HasRoom : Writer → List ℕ → Type 0
HasRoom w wire = length (written w) + length wire ≤ capacity w

-- `m` returns, having appended exactly the bytes `wire`, wherever there is room for them.
abbrev pub Writes : Write → List ℕ → Type 0
Writes m wire =
    (w : Writer)
    → IsValid w
    → HasRoom w wire
    → (w' : Writer) × (m w ≡ returned tt w') × Wrote w wire w'

pub Wrote-trans :
    (w v u : Writer) (front back : List ℕ)
    → Wrote w front v
    → Wrote v back u
    → Wrote w (front ++ back) u
Wrote-trans w v u front back h k = record {
  valid = k.valid;
  appended = k.appended ∙ rw h.appended (append_assoc (written w) front back);
  same_mode = k.same_mode ∙ h.same_mode;
  same_capacity = k.same_capacity ∙ h.same_capacity;
  same_error = k.same_error ∙ h.same_error;
  same_build = k.same_build ∙ h.same_build;
}

HasRoom-front : (w : Writer) (front back : List ℕ) → HasRoom w (front ++ back) → HasRoom w front
HasRoom-front w front back h = omega (arith, length-append front back)

pub Writes-then :
    (m n : Write) (front back : List ℕ)
    → Writes m front
    → Writes n back
    → Writes (m >> n) (front ++ back)
Writes-then m n front back h k w v room =
    let (v', e, p) = h w v (HasRoom-front w front back room) in
    let room' : HasRoom v' back = omega (
      arith,
      ap length p.appended,
      p.same_capacity,
      length-append front back,
      length-append (written w) front,
    ) in
    let (u, e', q) = k v' p.valid room' in (u, rw (e, e'), Wrote-trans w v' u front back p q)

pub Wrote-nothing : (w : Writer) → IsValid w → Wrote w [] w
Wrote-nothing w v = record {
  valid = v;
  appended = sym (append-nil (written w));
  same_mode = refl;
  same_capacity = refl;
  same_error = refl;
  same_build = refl;
}

pub Writes-nothing : Writes (pure tt) []
Writes-nothing w v room = (w, refl, Wrote-nothing w v)
