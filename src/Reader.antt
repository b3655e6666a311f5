-- ===== src/Reader.antt =====
-- include/memorypack/core.hpp, MemoryPackReader: its state, its error and position operations,
-- and the bounds check through which every read goes.
pub mod Safe
pub mod Yields
pub mod Reads
pub mod Headers
pub mod Strings
use memory_pack_cpp.Base.{
  ℕ, ◌+◌, ◌-◌, ◌%◌, ◌^◌, ◌≤◌, ◌<◌, Bool, true, false, not, List, [], length, take, drop, ltb, leb,
  if◌then◌else◌,
}
use memory_pack_cpp.Outcome.{
  MemoryPackError, no_error, buffer_underflow, length_limit, trailing_bytes, Outcome, returned,
  thrown, fault, Action, pure, first_error, is_error, ◌>>=◌, ◌>>◌,
}

-- struct ReaderOptions
pub record ReaderOptions : Type 0 where
  pub max_collection_length : ℕ
  pub max_string_length : ℕ
  pub max_depth : ℕ

-- The limits of a default-constructed ReaderOptions.
abbrev pub default_options : ReaderOptions
default_options = record {
  max_collection_length = 0xFFFFFFFF;
  max_string_length = 0xFFFFFFFF;
  max_depth = 256;
}

-- `bytes` is the memory behind `data_`, and `size_` its length. `has_exceptions` is the build's
-- MEMORYPACK_HAS_EXCEPTIONS.
pub record Reader : Type 0 where
  pub bytes : List ℕ
  pub pos : ℕ
  pub depth : ℕ
  pub options : ReaderOptions
  pub error : MemoryPackError
  pub has_exceptions : Bool

abbrev pub Read : Type 0 → Type 0
Read A = Action Reader A

abbrev pub size : Reader → ℕ
size r = length r.bytes

-- MemoryPackReader(data, size, options)
abbrev pub new_reader : Bool → ReaderOptions → List ℕ → Reader
new_reader exceptions options input = record {
  bytes = input;
  pos = 0;
  depth = 0;
  options = options;
  error = no_error;
  has_exceptions = exceptions;
}

abbrev pub failed : Reader → Bool
failed r = is_error r.error

-- bool Failed() const
unfoldable pub is_failed : Read Bool
is_failed r = returned (failed r) r

unfoldable pub fail : MemoryPackError → Read (Unit {0})
fail code r =
    let r' : Reader = record r { error = first_error r.error code } in
    if r.has_exceptions then thrown code r' else returned tt r'

-- size_t Remaining() const, with the wrap-around of `size_ - pos_`.
unfoldable pub remaining : Reader → ℕ
remaining r = (length r.bytes + 2 ^ 64 - r.pos) % 2 ^ 64

unfoldable pub get_remaining : Read ℕ
get_remaining r = returned (remaining r) r

unfoldable pub get_position : Read ℕ
get_position r = returned r.pos r

unfoldable pub ensure_bytes : ℕ → Read Bool
unfolding remaining fail
ensure_bytes n r =
    if failed r
    then returned false r
    else if ltb (remaining r) n
    then (do fail buffer_underflow; pure false) r
    else returned true r

-- `data_[pos_ + offset]` up to `n` bytes further, as `memcpy` and `[]` read it.
unfoldable pub load : ℕ → Read (List ℕ)
load n r =
    if leb (r.pos + n) (length r.bytes) then returned (take n (drop r.pos r.bytes)) r else fault

-- pos_ += n
unfoldable pub move : ℕ → Read (Unit {0})
move n r = returned tt (record r { pos = r.pos + n })

-- The `n` bytes at the position, and the position behind them.
unfoldable pub take_bytes : ℕ → Read (List ℕ)
unfolding load move
take_bytes n = do bs ← load n; move n; pure bs

-- void Advance(size_t n)
unfoldable pub advance : ℕ → Read (Unit {0})
unfolding ensure_bytes move
advance n = do enough ← ensure_bytes n; if enough then move n else pure tt

-- bool IsEnd() const
abbrev pub is_end : Reader → Bool
is_end r = leb (length r.bytes) r.pos

-- void Seek(size_t position)
unfoldable pub seek : ℕ → Read (Unit {0})
unfolding fail
seek position r =
    if ltb (length r.bytes) position
    then fail buffer_underflow r
    else returned tt (record r { pos = position })

-- void Reset()
unfoldable pub reset : Read (Unit {0})
reset r = returned tt (record r { pos = 0; depth = 0; error = no_error })

-- MemoryPackReader SubReader(size_t length)
unfoldable pub sub_reader : ℕ → Read Reader
unfolding ensure_bytes take_bytes
sub_reader n = do
  enough ← ensure_bytes n
  payload ← if enough then take_bytes n else pure []
  λ r. returned (new_reader r.has_exceptions r.options payload) r

-- bool EnterObject()
unfoldable pub enter_object : Read Bool
unfolding fail
enter_object r =
    let r' : Reader = record r { depth = (r.depth + 1) % 2 ^ 32 } in
    if ltb r.options.max_depth ((r.depth + 1) % 2 ^ 32)
    then (do fail length_limit; pure false) r'
    else returned true r'

-- void LeaveObject()
unfoldable pub leave_object : Read (Unit {0})
leave_object r = returned tt (record r { depth = r.depth - 1 })

-- bool RequireEnd()
unfoldable pub require_end : Read Bool
unfolding fail
require_end r = if is_end r then returned true r else (do fail trailing_bytes; pure false) r

-- Positions never pass the end, and a size is a size_t.
pub record IsValid (r : Reader) : Type 0 where
  pub in_bounds : r.pos ≤ length r.bytes
  pub fits : length r.bytes < 2 ^ 64
