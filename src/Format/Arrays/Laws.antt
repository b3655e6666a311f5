-- ===== src/Format/Arrays/Laws.antt =====
-- include/memorypack/core.hpp, ReadArray: what it takes off the input, and how much it stores.
use memory_pack_cpp.Base.{
  ℕ, zero, suc, ◌-◌, ◌*◌, ◌≤◌, ◌<◌, ◌^◌, ◌≡◌, ◌∙◌, refl, sym, ap, min, List, [], ◌∷◌, ◌++◌, length,
  take, drop, to_le, ◌==◌, if◌then◌else◌, Option, none, some, arith, length-take, length-drop,
  take-drop, append_assoc, ne→==false, lt→leb,
}
use memory_pack_cpp.Outcome.{returned, pure, ◌>>=◌}
use memory_pack_cpp.Reader.{Reader, move}
use memory_pack_cpp.Reader.Yields.{
  Yields, Yields-bind, Yields-pure, Yields-if, Yields-Safe, Yields-checked, Yields-moved,
}
use memory_pack_cpp.Reader.Reads.{
  Ready, Reads, Ahead, advanced, Reads-bind, Reads-pure, Reads-map, checked-Reads, move-Reads,
}
use memory_pack_cpp.Reader.Headers.Safe.{read_collection_length-Safe}
use memory_pack_cpp.Reader.Headers.Reads.{counted-Reads}
use memory_pack_cpp.Format.Collections.{is_empty_length}
use memory_pack_cpp.Format.Vectors.{
  block_of, numbers_of, read_block, read_front, skip_back, and_skip, read_array,
}
use memory_pack_cpp.Format.Vectors.Laws.{
  NumbersFit, length-block_of, numbers_of-block_of, vector_wire, read_block-Reads,
}

length-numbers_of : (size count : ℕ) (bs : List ℕ) → length (numbers_of size count bs) ≡ count
length-numbers_of size zero bs = refl
length-numbers_of size (suc count) bs = ap suc (length-numbers_of size count (drop size bs))

-- At most this many elements, if any.
abbrev AtMost : ℕ → Option (List ℕ) → Type 0
AtMost n none = Unit {0}
AtMost n (some items) = length items ≤ n

read_front-Yields : (size count : ℕ) → Yields (AtMost count) (read_front size count)
unfolding read_front read_block
read_front-Yields size count =
    Yields-if (count == 0) _ _ (Yields-pure (some []) (omega arith)) (
      Yields-checked (count * size) _ none tt
        (λ bs. omega (arith, length-numbers_of size count bs)))

and_skip-Yields :
    (size count max : ℕ) (front : Option (List ℕ))
    → AtMost max front
    → Yields (λ items. length items ≤ max) (and_skip size count front)
unfolding skip_back
and_skip-Yields size count max none h = Yields-pure [] (omega arith)
and_skip-Yields size count max (some items) h =
    Yields-if (count == 0) _ _ (Yields-pure items h) (Yields-moved (count * size) items h)

-- `ReadArray` is defined on any input, and never stores more elements than the array has.
pub read_array-Yields : (size max : ℕ) → Yields (λ items. length items ≤ max) (read_array size max)
unfolding read_array
read_array-Yields size max =
    Yields-bind _ _ (Yields-Safe _ (read_collection_length-Safe size)) λ len _.
      Yields-if (is_empty_length len) _ _ (Yields-pure [] (omega arith)) (
        Yields-bind (read_front size (min len max)) _ (read_front-Yields size (min len max))
          λ front h. and_skip-Yields size (len - min len max) max front (fits len front h))
  where
    fits : (len : ℕ) (front : Option (List ℕ)) → AtMost (min len max) front → AtMost max front
    fits len none h = tt
    fits len (some items) h = omega (arith, h)

block_of-append :
    (size : ℕ) (vs ws : List ℕ) → block_of size (vs ++ ws) ≡ block_of size vs ++ block_of size ws
block_of-append size [] ws = refl
block_of-append size (v ∷ vs) ws =
    ap (λ (u : List ℕ). to_le size v ++ u) (block_of-append size vs ws)
    ∙ sym (append_assoc (to_le size v) (block_of size vs) (block_of size ws))

NumbersFit-take : (size n : ℕ) (vs : List ℕ) → NumbersFit size vs → NumbersFit size (take n vs)
NumbersFit-take size zero vs h = tt
NumbersFit-take size (suc n) [] h = tt
NumbersFit-take size (suc n) (v ∷ vs) h = (h.0, NumbersFit-take size n vs h.1)

read_front-Reads :
    (levels size : ℕ) (vs : List ℕ)
    → NumbersFit size vs
    → Reads levels (read_front size (length vs)) (block_of size vs) (some vs)
unfolding read_front
read_front-Reads levels size [] fit = Reads-pure (some [])
read_front-Reads levels size (v ∷ vs) fit = rw (ne→==false (length (v ∷ vs)) 0 (omega arith)) (
    rw (numbers_of-block_of size (v ∷ vs) fit) at (
      read_block-Reads {levels = levels} (length (v ∷ vs) * size) none
        (λ bs. some (numbers_of size (length (v ∷ vs)) bs)) (block_of size (v ∷ vs))
        (length-block_of size (v ∷ vs))))

skip_back-Reads :
    (levels size : ℕ) (vs items : List ℕ)
    → Reads levels (skip_back size (length vs) items) (block_of size vs) items
unfolding skip_back
skip_back-Reads levels size [] items = Reads-pure items
skip_back-Reads levels size (v ∷ vs) items =
    let n = length (v ∷ vs) * size in
    let e = length-block_of size (v ∷ vs) in
    rw (ne→==false (length (v ∷ vs)) 0 (omega arith)) (
      checked-Reads n _ _ (block_of size (v ∷ vs)) (omega arith) (
        Reads-map {levels = levels} (move n) (λ _. items) (block_of size (v ∷ vs))
          (move-Reads n (block_of size (v ∷ vs)) e)))

-- `ReadArray` takes the whole encoding of any numbers that fit their size off the front of the unread
-- input, stores as many of them as the array has cells, and steps over the others. The reader has no
-- error and limits that allow every int32 length.
pub read_array-Reads :
    (levels size max : ℕ) (vs : List ℕ)
    → NumbersFit size vs
    → length vs < 2 ^ 31
    → (r : Reader) (rest : List ℕ) → Ready levels r
    → Ahead r (vector_wire size vs) rest
    → read_array size max r
      ≡ returned (take (min (length vs) max) vs) (advanced (length (vector_wire size vs)) r)
unfolding read_array
read_array-Reads levels size max vs fit short =
    counted-Reads size (length vs) _ (block_of size vs) short
      (omega (arith, length-block_of size vs)) (rest vs fit short)
  where
    rest :
        (vs : List ℕ)
        → NumbersFit size vs
        → length vs < 2 ^ 31
        → Reads levels
            (if is_empty_length (length vs)
              then pure []
              else read_front size (min (length vs) max)
                >>= and_skip size (length vs - min (length vs) max))
            (block_of size vs)
            (take (min (length vs) max) vs)
    rest [] fit short = let e : min 0 max ≡ 0 = omega arith in rw e (Reads-pure [])
    rest (v ∷ vs) fit short =
        let n = min (length (v ∷ vs)) max in
        let front = take n (v ∷ vs) in
        let back = drop n (v ∷ vs) in
        let front_size : length front ≡ n = omega (arith, length-take n (v ∷ vs)) in
        let back_size : length back ≡ length (v ∷ vs) - n = length-drop n (v ∷ vs) in
        let parts : block_of size front ++ block_of size back ≡ block_of size (v ∷ vs) =
          sym (block_of-append size front back)
          ∙ ap (λ (u : List ℕ). block_of size u) (take-drop n (v ∷ vs)) in
        let whole =
          Reads-bind {levels = levels} (read_front size n) (and_skip size (length (v ∷ vs) - n))
            (block_of size front) (block_of size back)
            (rw front_size at
              (read_front-Reads levels size front (NumbersFit-take size n (v ∷ vs) fit)))
            (rw back_size at (skip_back-Reads levels size back front)) in
        rw (lt→leb (2 ^ 31) (length (v ∷ vs)) short, ne→==false (length (v ∷ vs)) 0 (omega arith))
          (rw parts at whole)
