-- ===== src/Writer.antt =====
-- include/memorypack/core.hpp, MemoryPackWriter: its three buffers, appending bytes to them, and
-- its error state.
pub mod Buffers
pub mod Appends
pub mod Headers
pub mod Strings
pub mod Steady
pub mod Handover
pub mod Overflows
use memory_pack_cpp.Base.{
  ℕ, zero, suc, ◌+◌, ◌-◌, ◌*◌, ◌%◌, ◌≤◌, ◌<◌, ◌^◌, ◌≡◌, Bool, true, false, List, [], ◌∷◌, ◌++◌,
  length, take, drop, replicate, ltb, leb, ◌==◌, if◌then◌else◌, Option, none, some,
}
use memory_pack_cpp.Outcome.{
  MemoryPackError, no_error, buffer_overflow, not_supported, Outcome, returned, thrown, fault,
  Action, pure, ◌>>=◌, ◌>>◌, first_error, is_error,
}

-- `vec` holds the caller's vector and `fixed_buf` the memory of the caller's buffer, where the
-- writer has one. `has_exceptions` is the build's MEMORYPACK_HAS_EXCEPTIONS.
pub record Writer : Type 0 where
  pub owned : List ℕ
  pub owned_pos : ℕ
  pub vec : Option (List ℕ)
  pub fixed_buf : Option (List ℕ)
  pub fixed_cap : ℕ
  pub fixed_pos : ℕ
  pub error : MemoryPackError
  pub has_exceptions : Bool

abbrev pub Write : Type 0
Write = Action Writer (Unit {0})

-- MemoryPackWriter()
abbrev pub new_writer : Bool → Writer
new_writer exceptions = record {
  owned = [];
  owned_pos = 0;
  vec = none;
  fixed_buf = none;
  fixed_cap = 0;
  fixed_pos = 0;
  error = no_error;
  has_exceptions = exceptions;
}

-- MemoryPackWriter(std::vector<uint8_t>& externalBuffer)
abbrev pub vector_writer : Bool → List ℕ → Writer
vector_writer exceptions buffer = record (new_writer exceptions) { vec = some buffer }

-- MemoryPackWriter(uint8_t* data, size_t capacity), over `capacity` bytes of memory.
abbrev pub fixed_writer : Bool → List ℕ → Writer
fixed_writer exceptions memory = record (new_writer exceptions) {
  fixed_buf = some memory;
  fixed_cap = length memory;
}

unfoldable pub fail : MemoryPackError → Write
fail code w =
    let w' : Writer = record w { error = first_error w.error code } in
    if w.has_exceptions then thrown code w' else returned tt w'

abbrev pub failed : Writer → Bool
failed w = is_error w.error

abbrev choose {ℓ} :
    {A : Type ℓ} → Option (List ℕ) → Option (List ℕ) → (List ℕ → A) → (List ℕ → A) → A → A
choose (some v) b on_vec on_fixed on_owned = on_vec v
choose none (some b) on_vec on_fixed on_owned = on_fixed b
choose none none on_vec on_fixed on_owned = on_owned

-- Which of the three buffers a writer has.
pub data Mode : Type 0 where
  owned_mode vector_mode fixed_mode : Mode

abbrev pub mode : Writer → Mode
mode w = choose w.vec w.fixed_buf (λ _. vector_mode) (λ _. fixed_mode) owned_mode

-- size_t Size() const
unfoldable pub writer_size : Writer → ℕ
writer_size w = choose w.vec w.fixed_buf length (λ _. w.fixed_pos) w.owned_pos

-- std::span<const uint8_t> GetSpan() const
unfoldable pub written : Writer → List ℕ
written w = choose w.vec w.fixed_buf (λ v. v) (λ b. take w.fixed_pos b) (take w.owned_pos w.owned)

-- memcpy(buffer + pos, src, n), or one element's assignment, where it stays in the buffer.
abbrev pub store : List ℕ → ℕ → List ℕ → Option (List ℕ)
store buffer pos src =
    if leb (pos + length src) (length buffer)
    then some (take pos buffer ++ (src ++ drop (pos + length src) buffer))
    else none

abbrev pub resize : ℕ → List ℕ → List ℕ
resize n xs = take n xs ++ replicate (n - length xs) 0

-- while (next < target) next *= 2; a size_t that wraps to 0 would never end it.
unfoldable pub double_until : ℕ → ℕ → ℕ → Option ℕ
double_until zero next target = none
double_until (suc rounds) next target =
    let more = double_until rounds (next * 2 % 2 ^ 64) target in
    if ltb next target then more else some next

-- void GrowOwned(size_t needed)
unfoldable pub grow_owned : ℕ → Write
unfolding double_until
grow_owned needed w =
    let target = (w.owned_pos + needed) % 2 ^ 64 in
    let next = if length w.owned == 0 then 64 else length w.owned * 2 % 2 ^ 64 in
    elim (double_until 65 next target) [
      | none ↦ fault
      | some n ↦ returned tt (record w { owned = resize n w.owned })
    ]

pub store_fixed : List ℕ → List ℕ → Write
store_fixed src buffer w = elim (store buffer w.fixed_pos src) [
  | none ↦ fault
  | some buffer' ↦
      returned tt (record w { fixed_buf = some buffer'; fixed_pos = w.fixed_pos + length src })
]

pub store_owned : List ℕ → Write
store_owned src w = elim (store w.owned w.owned_pos src) [
  | none ↦ fault
  | some owned' ↦ returned tt (record w { owned = owned'; owned_pos = w.owned_pos + length src })
]

-- void AppendByte(uint8_t b)
unfoldable pub append_byte : ℕ → Write
unfolding fail grow_owned store_fixed store_owned
append_byte b w =
    choose w.vec w.fixed_buf (λ v. returned tt (record w { vec = some (v ++ (b ∷ [])) }))
      (λ buffer.
        if leb w.fixed_cap w.fixed_pos
        then fail buffer_overflow w
        else store_fixed (b ∷ []) buffer w)
      ((do
        (if leb (length w.owned) w.owned_pos then grow_owned 1 else pure tt)
        store_owned (b ∷ []))
        w)

-- void AppendBytes(const uint8_t* src, size_t n)
unfoldable pub append_bytes : List ℕ → Write
unfolding fail grow_owned store_fixed store_owned
append_bytes src w =
    let n = length src in
    if n == 0
    then returned tt w
    else choose w.vec w.fixed_buf (λ v. returned tt (record w { vec = some (v ++ src) }))
        (λ buffer.
          if ltb (w.fixed_cap - w.fixed_pos) n
          then fail buffer_overflow w
          else store_fixed src buffer w)
        ((do
          (if ltb (length w.owned - w.owned_pos) n then grow_owned n else pure tt)
          store_owned src)
          w)

-- void Clear()
unfoldable pub clear : Write
clear w =
    let w' =
      choose w.vec w.fixed_buf (λ v. record w { vec = some [] }) (λ b. record w { fixed_pos = 0 })
        (record w { owned_pos = 0 }) in
    returned tt (record w' { error = no_error })

-- std::vector<uint8_t> TakeBuffer()
unfoldable pub take_buffer : Action Writer (List ℕ)
unfolding fail
take_buffer w =
    let reject : List ℕ → Outcome Writer (List ℕ) = λ _. (do fail not_supported; pure []) w in
    choose w.vec w.fixed_buf reject reject
      (returned (resize w.owned_pos w.owned) (record w { owned = []; owned_pos = 0 }))

-- size_t RemainingCapacity() const
unfoldable pub remaining_capacity : Writer → ℕ
remaining_capacity w =
    choose none w.fixed_buf (λ v. 0) (λ b. w.fixed_cap - w.fixed_pos) (2 ^ 64 - 1)
