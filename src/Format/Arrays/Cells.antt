-- ===== src/Format/Arrays/Cells.antt =====
-- include/memorypack/core.hpp, WriteArray and ReadArray on the cells of an array;
-- include/memorypack/containers.hpp, std::array.
use memory_pack_cpp.Base.{
  ℕ, zero, suc, ◌-◌, ◌≤◌, ◌<◌, ◌^◌, ◌≡◌, ◌∙◌, refl, ap, min, List, [], ◌∷◌, length, take, drop,
  replicate, to_le, ltb, if◌then◌else◌, arith, length-append, length-take, length-drop,
  length-replicate, take-length, ne→==false, lt→leb, le→ltb,
}
use native.Mathlib.Decide.{dec_lt}
use memory_pack_cpp.Outcome.{fault, pure}
use memory_pack_cpp.Reader.{is_failed}
use memory_pack_cpp.Reader.Safe.{is_failed-Safe}
use memory_pack_cpp.Reader.Yields.{Yields, Yields-bind, Yields-pure, Yields-if, Yields-Safe}
use memory_pack_cpp.Reader.Reads.{Reads, Reads-map}
use memory_pack_cpp.Reader.Headers.{read_collection_length}
use memory_pack_cpp.Reader.Headers.Safe.{read_collection_length-Safe}
use memory_pack_cpp.Writer.Appends.{Writes, Writes-then, Writes-nothing}
use memory_pack_cpp.Writer.Headers.{write_collection_header}
use memory_pack_cpp.Writer.Headers.Writes.{write_collection_header-Writes}
use memory_pack_cpp.Format.{Formatter, IsSafe}
use memory_pack_cpp.Format.Collections.{is_empty_length}
use memory_pack_cpp.Format.Vectors.{block_of, write_contiguous, read_array}
use memory_pack_cpp.Format.Vectors.Laws.{NumbersFit, vector_wire, write_contiguous-Writes}
use memory_pack_cpp.Format.Arrays.{
  write_array, FixedArray, filled, fixed_array_formatter, number_array_formatter, store, read_cells,
  read_std_array,
}
use memory_pack_cpp.Format.Arrays.Laws.{read_array-Yields, read_array-Reads}

-- The cells that `count` says are in use.
abbrev pub in_use : FixedArray → List ℕ
in_use v = take v.count v.cells

-- As many cells as the array has, and no more of them in use.
pub record IsFixed (max : ℕ) (v : FixedArray) : Type 0 where
  pub all_cells : length v.cells ≡ max
  pub few : v.count ≤ max

pub write_array-Writes :
    (size max : ℕ) (v : FixedArray)
    → IsFixed max v
    → max < 2 ^ 31
    → Writes (write_array size v.cells v.count) (vector_wire size (in_use v))
unfolding write_array write_contiguous
write_array-Writes size max v fixed small =
    let used : length (in_use v) ≡ v.count =
      omega (arith, length-take v.count v.cells, fixed.all_cells, fixed.few) in
    rw used (
      Writes-then (write_collection_header v.count) _ (to_le 4 v.count) (block_of size (in_use v))
        (write_collection_header-Writes v.count) body)
  where
    body :
        Writes
          (if is_empty_length v.count
            then pure tt
            else if ltb (length v.cells) v.count
            then (λ w. fault)
            else write_contiguous size (in_use v))
          (block_of size (in_use v))
    body = elim (dec_lt 0 v.count) [
      | no z ↦ let e : v.count ≡ 0 = omega arith in rw e Writes-nothing
      | yes some_items ↦
          rw
            (
              lt→leb (2 ^ 31) v.count (omega (arith, fixed.few)),
              ne→==false v.count 0 (omega arith),
              le→ltb (length v.cells) v.count (omega (arith, fixed.all_cells, fixed.few)),
            )
            (write_contiguous-Writes size (in_use v))
    ]

-- An array of numbers that `WriteArray` has written fills the front of the array that it is read
-- into, whose other cells keep what they held; the count comes back, too.
pub fixed_array-Reads :
    (levels size max : ℕ) (v old : FixedArray)
    → IsFixed max v
    → max < 2 ^ 31
    → NumbersFit size (in_use v)
    → Reads levels
        ((fixed_array_formatter size max).deserialize old)
        (vector_wire size (in_use v))
        (filled (in_use v) old)
fixed_array-Reads levels size max v old fixed small fit =
    let used : length (in_use v) ≡ v.count =
      omega (arith, length-take v.count v.cells, fixed.all_cells, fixed.few) in
    let same : min (length (in_use v)) max ≡ length (in_use v) = omega (arith, fixed.few) in
    let whole : take (min (length (in_use v)) max) (in_use v) ≡ in_use v =
      ap (λ (n : ℕ). take n (in_use v)) same ∙ take-length (in_use v) in
    Reads-map (read_array size max) (λ items. filled items old) (vector_wire size (in_use v))
      (rw whole at (read_array-Reads levels size max (in_use v) fit (omega (arith, fixed.few))))

-- Whatever the input holds, the array that is read into keeps its cells, and the count that it gets
-- is within them.
pub fixed_array-Yields :
    (size max : ℕ) (old : FixedArray)
    → length old.cells ≡ max
    → Yields (IsFixed max) ((fixed_array_formatter size max).deserialize old)
fixed_array-Yields size max old cells =
    Yields-bind (read_array size max) _ (read_array-Yields size max) λ items few.
      Yields-pure (filled items old) (record {
        all_cells =
            let e = length-append items (drop (length items) old.cells) in
            omega (arith, length-drop (length items) old.cells);
        few = few;
      })

-- std::array keeps its length, whatever the input holds.
pub number_array-Yields :
    (size n : ℕ) (old : List ℕ)
    → Yields (λ items. length items ≡ n) ((number_array_formatter size n).deserialize old)
number_array-Yields size n old =
    Yields-bind (read_array size n) _ (read_array-Yields size n) λ items few. Yields-pure _ (
      let e = length-append items (replicate (n - length items) 0) in
      omega (arith, length-replicate {A = ℕ} (n - length items) 0))

length-store :
    {A : Type 0} (i : ℕ) (x : A) (cells : List A) → length (store i x cells) ≡ length cells
length-store i x [] = refl
length-store zero x (c ∷ cs) = refl
length-store (suc i) x (c ∷ cs) = ap suc (length-store i x cs)

module _ {A : Type 0} (F : Formatter A) (safe : IsSafe F) where
  read_cells-Yields :
      (n i left : ℕ) (cells : List A)
      → length cells ≡ n
      → Yields (λ cs. length cs ≡ n) (read_cells F i left cells)
  unfolding read_cells
  read_cells-Yields n i zero cells h = Yields-pure cells h
  read_cells-Yields n i (suc left) cells h =
      Yields-bind is_failed _ (Yields-Safe _ is_failed-Safe) λ bad _.
        Yields-if bad _ _ (Yields-pure cells h) (
          Yields-bind (F.deserialize F.init) _ (Yields-Safe _ (safe F.init))
            λ x _. read_cells-Yields n (suc i) left (store i x cells) (length-store i x cells ∙ h))

  pub read_std_array-Yields : (n : ℕ) → Yields (λ cs. length cs ≡ n) (read_std_array F n)
  unfolding read_std_array
  read_std_array-Yields n =
      Yields-bind (read_collection_length 1) _ (Yields-Safe _ (read_collection_length-Safe 1))
        λ len _.
          Yields-if (is_empty_length len) _ _
            (Yields-pure (replicate n F.init) (length-replicate n F.init))
            (read_cells-Yields n 0 len (replicate n F.init) (length-replicate n F.init))
