-- ===== src/Writer/Handover.antt =====
-- include/memorypack/core.hpp, MemoryPackWriter: Reserve, GetBuffer, Reset and moved writers.
use memory_pack_cpp.Base.{
  ℕ, ◌-◌, ◌≡◌, ◌≢◌, append-nil, refl, ap, Bool, List, [], length, take, ltb, if◌then◌else◌, Option,
  none, some, arith, Bool-cases, inl, inr, ltb→lt,
}
use memory_pack_cpp.Outcome.{MemoryPackError, no_error, not_supported, returned, Action, pure, ◌>>◌}
use memory_pack_cpp.Writer.{Writer, Write, mode, fixed_mode, new_writer, fail, resize, written}
use memory_pack_cpp.Writer.Buffers.{take-resize}
use memory_pack_cpp.Writer.Appends.{IsValid}

-- void Reserve(size_t capacity): reserve of a vector keeps its elements.
unfoldable pub reserve : ℕ → Write
reserve capacity w = elim w.vec [
  | some v ↦ returned tt w
  | none ↦ elim w.fixed_buf [
    | some b ↦ returned tt w
    | none ↦
        if ltb (length w.owned) capacity
        then returned tt (record w { owned = resize capacity w.owned })
        else returned tt w
  ]
]

-- const std::vector<uint8_t>& GetBuffer() const
unfoldable pub get_buffer : Action Writer (List ℕ)
unfolding fail
get_buffer w = elim w.vec [
  | some v ↦ returned v w
  | none ↦ elim w.fixed_buf [
    | some b ↦ (do fail not_supported; pure []) w
    | none ↦ let owned = resize w.owned_pos w.owned in returned owned (record w { owned = owned })
  ]
]

-- void Reset()
unfoldable pub reset : Writer → Writer
reset w = record w {
  owned = [];
  owned_pos = 0;
  vec = none;
  fixed_buf = none;
  fixed_cap = 0;
  fixed_pos = 0;
  error = no_error;
}

-- MemoryPackWriter(MemoryPackWriter&& other), and operator= from another writer: the new writer, and
-- what `other` is afterwards.
unfoldable pub move_writer : Writer → Writer × Writer
unfolding reset
move_writer other = (
  record {
    owned = other.owned;
    owned_pos = other.owned_pos;
    vec = other.vec;
    fixed_buf = other.fixed_buf;
    fixed_cap = other.fixed_cap;
    fixed_pos = other.fixed_pos;
    error = other.error;
    has_exceptions = other.has_exceptions;
  },
  reset (record other { owned = [] }),
)

-- A moved writer goes on where the other one was, which is as a new one.
pub move_writer_lem : (w : Writer) → move_writer w ≡ (w, new_writer w.has_exceptions)
unfolding move_writer reset
move_writer_lem w = refl

-- One of the cases of a writer, by its fields.
abbrev writer_of :
    List ℕ → ℕ → Option (List ℕ) → Option (List ℕ) → ℕ → ℕ → MemoryPackError → Bool → Writer
writer_of owned owned_pos vec fixed cap pos error exceptions = record {
  owned = owned;
  owned_pos = owned_pos;
  vec = vec;
  fixed_buf = fixed;
  fixed_cap = cap;
  fixed_pos = pos;
  error = error;
  has_exceptions = exceptions;
}

reserve_cases :
    (capacity : ℕ) (owned : List ℕ) (owned_pos : ℕ) (vec fixed : Option (List ℕ)) (cap pos : ℕ)
    (error : MemoryPackError) (exceptions : Bool)
    → let w = writer_of owned owned_pos vec fixed cap pos error exceptions in
      IsValid w → (w' : Writer) × (reserve capacity w ≡ returned tt w') × (written w' ≡ written w)
unfolding reserve written
reserve_cases capacity owned owned_pos (some v) fixed cap pos error exceptions ok = (_, refl, refl)
reserve_cases capacity owned owned_pos none (some b) cap pos error exceptions ok = (_, refl, refl)
reserve_cases capacity owned owned_pos none none cap pos error exceptions ok =
    elim (Bool-cases (ltb (length owned) capacity)) [
      | inl more ↦ (
        writer_of (resize capacity owned) owned_pos none none cap pos error exceptions,
        rw more refl,
        take-resize owned_pos capacity owned
            (omega (arith, ok.owned_fits, ltb→lt (length owned) capacity more)) ok.owned_fits,
      )
      | inr less ↦
          (writer_of owned owned_pos none none cap pos error exceptions, rw less refl, refl)
    ]

-- `Reserve` changes nothing of what is written.
pub reserve-written :
    (capacity : ℕ) (w : Writer)
    → IsValid w
    → (w' : Writer) × (reserve capacity w ≡ returned tt w') × (written w' ≡ written w)
reserve-written capacity w ok =
    reserve_cases capacity w.owned w.owned_pos w.vec w.fixed_buf w.fixed_cap w.fixed_pos w.error
      w.has_exceptions ok

get_buffer_cases :
    (owned : List ℕ) (owned_pos : ℕ) (vec fixed : Option (List ℕ)) (cap pos : ℕ)
    (error : MemoryPackError) (exceptions : Bool)
    → let w = writer_of owned owned_pos vec fixed cap pos error exceptions in
      IsValid w
      → mode w ≢ fixed_mode
      → (w' : Writer) × (get_buffer w ≡ returned (written w) w') × (written w' ≡ written w)
unfolding get_buffer written
get_buffer_cases owned owned_pos (some v) fixed cap pos error exceptions ok h = (_, refl, refl)
get_buffer_cases owned owned_pos none (some b) cap pos error exceptions ok h = absurd (h refl)
get_buffer_cases owned owned_pos none none cap pos error exceptions ok h =
    let none_missing : owned_pos - length owned ≡ 0 = omega (arith, ok.owned_fits) in
    let whole : resize owned_pos owned ≡ take owned_pos owned =
      rw none_missing (append-nil (take owned_pos owned)) in
    let w' = writer_of (resize owned_pos owned) owned_pos none none cap pos error exceptions in
    (
      w',
      ap (λ (u : List ℕ). returned u w') whole,
      take-resize owned_pos owned_pos owned (omega arith) ok.owned_fits,
    )

-- `GetBuffer` gives what is written, and the writer goes on behind it, unless its buffer is fixed.
pub get_buffer-written :
    (w : Writer)
    → IsValid w
    → mode w ≢ fixed_mode
    → (w' : Writer) × (get_buffer w ≡ returned (written w) w') × (written w' ≡ written w)
get_buffer-written w ok h =
    get_buffer_cases w.owned w.owned_pos w.vec w.fixed_buf w.fixed_cap w.fixed_pos w.error
      w.has_exceptions ok h
