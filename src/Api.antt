-- ===== src/Api.antt =====
-- include/memorypack/core.hpp: the top-level functions that serialize and deserialize a value.
pub mod RoundTrip
pub mod Untrusted
pub mod Into
use memory_pack_cpp.Base.{ℕ, Bool, true, false, List, [], if◌then◌else◌, length, ◌⊎◌, inl, inr}
use memory_pack_cpp.Outcome.{
  MemoryPackError, no_error, buffer_underflow, buffer_overflow, Outcome, returned, thrown, fault,
  pure, ◌>>=◌, ◌>>◌,
}
use memory_pack_cpp.Reader
use memory_pack_cpp.Reader.{Reader, ReaderOptions, default_options, new_reader, require_end}
use memory_pack_cpp.Writer
use memory_pack_cpp.Writer.{
  Writer, new_writer, vector_writer, fixed_writer, take_buffer, writer_size,
}
use memory_pack_cpp.Format.{Formatter}

-- How a top-level call ends: with a value, an exception, or undefined behaviour.
pub data Result (A : Type 0) : Type 0 where
  value : A → Result A
  exception : MemoryPackError → Result A
  undefined : Result A

abbrev pub result_of : {S A B : Type 0} → Outcome S A → (A → S → B) → Result B
result_of (returned a s) f = value (f a s)
result_of (thrown e s) f = exception e
result_of fault f = undefined

module _ (exceptions : Bool) {A : Type 0} (F : Formatter A) where
  -- std::vector<uint8_t> Serialize(const T& value)
  unfoldable pub serialize : A → Result (List ℕ)
  serialize v =
      result_of ((F.serialize v >> take_buffer) (new_writer exceptions)) (λ bytes w. bytes)

  -- size_t SerializeTo(std::span<uint8_t> buffer, const T& value), with the writer it leaves.
  unfoldable pub serialize_to : List ℕ → A → Result (ℕ × Writer)
  serialize_to buffer v =
      result_of (F.serialize v (fixed_writer exceptions buffer))
        (λ _ w. (if Writer.failed w then 0 else writer_size w, w))

  -- T Deserialize(std::span<const uint8_t> data)
  unfoldable pub deserialize : List ℕ → Result A
  deserialize input =
      result_of (F.deserialize F.init (new_reader exceptions default_options input)) (λ v r. v)

  -- T DeserializeExact(std::span<const uint8_t> data)
  unfoldable pub deserialize_exact : List ℕ → Result A
  deserialize_exact input =
      result_of
        ((do v ← F.deserialize F.init; _ ← require_end; pure v)
          (new_reader exceptions default_options input))
        (λ v r. v)

  -- The value or the error of a std::expected, or undefined behaviour.
  abbrev expected_of : Outcome Reader A → Result (A ⊎ MemoryPackError)
  expected_of (returned v r) = value (if Reader.failed r then inr r.error else inl v)
  expected_of (thrown e r) = value (inr (if Reader.failed r then r.error else buffer_underflow))
  expected_of fault = undefined

  -- std::expected<T, MemoryPackError> TryDeserialize(std::span<const uint8_t> data)
  unfoldable pub try_deserialize : List ℕ → Result (A ⊎ MemoryPackError)
  try_deserialize input =
      expected_of (F.deserialize F.init (new_reader exceptions default_options input))

  abbrev expected_size : Outcome Writer (Unit {0}) → Result (ℕ ⊎ MemoryPackError)
  expected_size (returned _ w) =
      value (if Writer.failed w then inr w.error else inl (writer_size w))
  expected_size (thrown e w) = value (inr (if Writer.failed w then w.error else buffer_overflow))
  expected_size fault = undefined

  -- std::expected<size_t, MemoryPackError> TrySerializeTo(std::span<uint8_t> buffer, const T& value)
  unfoldable pub try_serialize_to : List ℕ → A → Result (ℕ ⊎ MemoryPackError)
  try_serialize_to buffer v = expected_size (F.serialize v (fixed_writer exceptions buffer))
