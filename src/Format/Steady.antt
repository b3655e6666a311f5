-- ===== src/Format/Steady.antt =====
-- include/memorypack/core.hpp: formatters whose writing into a vector always ends.
use memory_pack_cpp.Base.{ℕ, List, [], ◌∷◌, length, All}
use memory_pack_cpp.Writer.Headers.{write_object_header, write_collection_header}
use memory_pack_cpp.Writer.Steady.{
  Steady, Steady-pure, Steady-then, append_bytes-Steady, write_raw-Steady, write_string-Steady,
  write_object_header-Steady, counted-Steady,
}
use memory_pack_cpp.Format.{Formatter}
use memory_pack_cpp.Format.Primitives.{number_formatter, string_formatter}
use memory_pack_cpp.Format.Objects.{Member, write_members, serialize_object, object_formatter}
use memory_pack_cpp.Format.Collections.{write_items, write_collection, vector_formatter}
use memory_pack_cpp.Format.Unmanaged.{write_unmanaged}
use memory_pack_cpp.Dotnet.Vectors.{floats_formatter}

abbrev pub IsSteady : {A : Type 0} → Formatter A → Type 0
IsSteady {A} F = (v : A) → Steady (F.serialize v)

pub number-IsSteady : (size : ℕ) → IsSteady (number_formatter size)
number-IsSteady size v = write_raw-Steady size v

pub string-IsSteady : IsSteady string_formatter
string-IsSteady = write_string-Steady

pub floats-IsSteady : (count : ℕ) → IsSteady (floats_formatter count)
unfolding write_unmanaged
floats-IsSteady count v = append_bytes-Steady _

module _ {T : Type 0} where
  abbrev pub AllSteady : List (Member T) → Type 0
  AllSteady ms = All (λ m. IsSteady m.format) ms

  write_members-Steady : (ms : List (Member T)) (v : T) → AllSteady ms → Steady (write_members ms v)
  unfolding write_members
  write_members-Steady [] v h = Steady-pure tt
  write_members-Steady (m ∷ ms) v h =
      Steady-then (m.format.serialize (m.get v)) (write_members ms v) (h.0 (m.get v))
        (write_members-Steady ms v h.1)

  pub object-IsSteady :
      (init : T) (ms : List (Member T)) → AllSteady ms → IsSteady (object_formatter init ms)
  unfolding serialize_object
  object-IsSteady init ms h v =
      Steady-then (write_object_header (length ms)) (write_members ms v)
        (write_object_header-Steady (length ms)) (write_members-Steady ms v h)

module _ {A : Type 0} (F : Formatter A) (h : IsSteady F) where
  write_items-Steady : (items : List A) → Steady (write_items F items)
  unfolding write_items
  write_items-Steady [] = Steady-pure tt
  write_items-Steady (item ∷ items) =
      Steady-then (F.serialize item) (write_items F items) (h item) (write_items-Steady items)

  pub vector-IsSteady : IsSteady (vector_formatter F)
  unfolding write_collection write_collection_header
  vector-IsSteady items = counted-Steady (length items) _ λ count.
      Steady-then (write_collection_header count) (write_items F items) (write_raw-Steady 4 count)
        (write_items-Steady items)
