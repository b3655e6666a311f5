-- ===== src/Format/Sets/Laws.antt =====
-- include/memorypack/containers.hpp, SetFormatter: a set is safe to read, and the encoding of any list
-- of elements is read as the set of them.
use memory_pack_cpp.Base.{
  ℕ, zero, suc, ◌≤◌, ◌<◌, ◌^◌, ◌≡◌, ◌∙◌, refl, Bool, true, false, List, [], ◌∷◌, ◌++◌, length, ◌||◌,
  All, if◌then◌else◌, arith, lt→leb, ne→==false, Bool-cases, inl, inr, append-nil, append_assoc,
}
use memory_pack_cpp.Outcome.{returned, pure}
use memory_pack_cpp.Reader.{Reader}
use memory_pack_cpp.Reader.Safe.{Safe, Safe-bind, Safe-pure, Safe-if, is_failed-Safe}
use memory_pack_cpp.Reader.Reads.{
  Ready, Reads, Ahead, advanced, Reads-bind, Reads-pure, is_failed-Reads,
}
use memory_pack_cpp.Reader.Headers.Safe.{read_collection_length-Safe}
use memory_pack_cpp.Reader.Headers.Reads.{counted-Reads}
use memory_pack_cpp.Format.{Formatter, Lawful, IsSafe, container_min_size}
use memory_pack_cpp.Format.Collections.{is_empty_length}
use memory_pack_cpp.Format.Collections.Laws.{items_wire, collection_wire, items_fit}
use memory_pack_cpp.Format.Sets.{has, insert, read_elements, read_set, set_formatter}

module _ {A : Type 0} (F : Formatter A) (same : A → A → Bool) where
  read_elements-Safe : IsSafe F → (left : ℕ) (vs : List A) → Safe (read_elements F same left vs)
  unfolding read_elements
  read_elements-Safe safe zero vs = Safe-pure vs
  read_elements-Safe safe (suc left) vs = Safe-bind is_failed-Safe (λ bad.
      Safe-if bad (Safe-pure vs)
        (Safe-bind (safe F.init) (λ v. read_elements-Safe safe left (insert F same vs v))))

  pub set-IsSafe : IsSafe F → IsSafe (set_formatter F same)
  unfolding read_set
  set-IsSafe safe old =
      Safe-bind (read_collection_length-Safe (container_min_size F.kind))
        (λ len. Safe-if (is_empty_length len) (Safe-pure []) (read_elements-Safe safe len []))

  -- The elements of a list put into a set one after the other.
  abbrev pub insert_all : List A → List A → List A
  insert_all vs [] = vs
  insert_all vs (w ∷ ws) = insert_all (insert F same vs w) ws

  -- No element is the same as one in front of it.
  abbrev pub HasDistinct : List A → List A → Type 0
  HasDistinct front [] = Unit {0}
  HasDistinct front (v ∷ vs) = (has F same v front ≡ false) × HasDistinct (front ++ (v ∷ [])) vs

  has-append :
      (x : A) (vs ws : List A) → has F same x (vs ++ ws) ≡ (has F same x vs || has F same x ws)
  has-append x [] ws = refl
  has-append x (v ∷ vs) ws = ground (arith, has-append x vs ws)

  HasDistinct-append :
      (front vs : List A) (v : A)
      → HasDistinct front vs
      → has F same v (front ++ vs) ≡ false
      → HasDistinct front (vs ++ (v ∷ []))
  HasDistinct-append front [] v h new = (rw (append-nil front) at new, tt)
  HasDistinct-append front (w ∷ vs) v h new = (
    h.0,
    HasDistinct-append (front ++ (w ∷ [])) vs v h.1 (rw (append_assoc front (w ∷ []) vs) new),
  )

  -- The equality of the elements of a set.
  pub record IsEquality : Type 0 where
    pub reflexive : (x : A) → same x x ≡ true
    pub transitive : (x y z : A) → same x y ≡ true → same y z ≡ true → same x z ≡ true

  same-has :
      IsEquality
      → (x v : A) (vs : List A) → same x v ≡ true
      → has F same v vs ≡ true
      → has F same x vs ≡ true
  same-has eq x v [] e h = cc
  same-has eq x v (w ∷ vs) e h = elim (Bool-cases (same v w)) [
    | inl first ↦ rw (eq.transitive x v w e first) refl
    | inr later ↦ ground (arith, same-has eq x v vs e)
  ]

  -- One more element: the set has just it and what it had before.
  insert-has :
      IsEquality
      → (x v : A) (vs : List A) → has F same x (insert F same vs v) ≡ (has F same x vs || same x v)
  unfolding insert
  insert-has eq x v vs = elim (Bool-cases (has F same v vs)) [
    | inl old ↦ rw old (old_case (same x v) refl old)
    | inr new ↦ rw new (ground (arith, has-append x vs (v ∷ [])))
  ]
    where
      old_case :
          (b : Bool)
          → same x v ≡ b
          → has F same v vs ≡ true
          → has F same x vs ≡ (has F same x vs || b)
      old_case true e old = let h = same-has eq x v vs e old in ground arith
      old_case false e old = ground arith

  insert-HasDistinct :
      (vs : List A) (v : A) → HasDistinct [] vs → HasDistinct [] (insert F same vs v)
  unfolding insert
  insert-HasDistinct vs v h = elim (Bool-cases (has F same v vs)) [
    | inl old ↦ rw old h
    | inr new ↦ rw new (HasDistinct-append [] vs v h new)
  ]

  insert_all-has :
      IsEquality
      → (x : A) (vs ws : List A)
      → has F same x (insert_all vs ws) ≡ (has F same x vs || has F same x ws)
  insert_all-has eq x vs [] = ground arith
  insert_all-has eq x vs (w ∷ ws) =
      insert_all-has eq x (insert F same vs w) ws ∙ ground (arith, insert-has eq x w vs)

  insert_all-HasDistinct : (vs ws : List A) → HasDistinct [] vs → HasDistinct [] (insert_all vs ws)
  insert_all-HasDistinct vs [] h = h
  insert_all-HasDistinct vs (w ∷ ws) h =
      insert_all-HasDistinct (insert F same vs w) ws (insert-HasDistinct vs w h)

module _ {A : Type 0} (F : Formatter A) (L : Lawful F) (same : A → A → Bool) where
  read_elements-Reads :
      (n : ℕ) (vs ws : List A)
      → L.levels ≤ n
      → All L.IsEncodable ws
      → Reads n (read_elements F same (length ws) vs) (items_wire F L ws) (insert_all F same vs ws)
  unfolding read_elements
  read_elements-Reads n vs [] deep h = Reads-pure vs
  read_elements-Reads n vs (w ∷ ws) deep h = is_failed-Reads _ (items_wire F L (w ∷ ws)) (
      Reads-bind (F.deserialize F.init) _ (L.wire w) (items_wire F L ws)
        (L.reads n F.init w deep h.0) (read_elements-Reads n (insert F same vs w) ws deep h.1))

  read_set-Reads :
      (n : ℕ) (ws : List A)
      → L.levels ≤ n
      → All L.IsEncodable ws
      → length ws < 2 ^ 31
      → Reads n (read_set F same) (collection_wire F L ws) (insert_all F same [] ws)
  unfolding read_set
  read_set-Reads n ws deep h short =
      counted-Reads (container_min_size F.kind) (length ws) _ (items_wire F L ws) short
        (items_fit F L (container_min_size F.kind) (λ v e. (L.large v e).1) ws h) (rest ws h short)
    where
      rest :
          (ws : List A)
          → All L.IsEncodable ws
          → length ws < 2 ^ 31
          → Reads n
              (if is_empty_length (length ws) then pure [] else read_elements F same (length ws) [])
              (items_wire F L ws)
              (insert_all F same [] ws)
      rest [] h short = Reads-pure []
      rest (w ∷ ws) h short =
          rw (lt→leb (2 ^ 31) (length (w ∷ ws)) short, ne→==false (length (w ∷ ws)) 0 (omega arith))
            (read_elements-Reads n [] (w ∷ ws) deep h)

  -- The encoding of a list of elements, in any order and with repetitions, is read up to its end as
  -- the set of its elements: no two of them are the same, and the set has an element just where the
  -- list does. `same` is reflexive and transitive; the reader has no error, limits that allow every
  -- int32 length, and levels enough left.
  pub read_set-has :
      (n : ℕ) (old ws : List A)
      → IsEquality F same
      → L.levels ≤ n
      → All L.IsEncodable ws
      → length ws < 2 ^ 31
      → (r : Reader) (rest : List ℕ) → Ready n r
      → Ahead r (collection_wire F L ws) rest
      → (s : List A) × ((set_formatter F same).deserialize old r
          ≡ returned s (advanced (length (collection_wire F L ws)) r))
        × HasDistinct F same [] s
        × ((x : A) → has F same x s ≡ has F same x ws)
  read_set-has n old ws eq deep h short r rest ready ahead = (
    insert_all F same [] ws,
    read_set-Reads n ws deep h short r rest ready ahead,
    insert_all-HasDistinct F same [] ws tt,
    λ x. insert_all-has F same eq x [] ws,
  )
