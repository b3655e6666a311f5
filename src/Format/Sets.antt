-- ===== src/Format/Sets.antt =====
-- include/memorypack/containers.hpp, SetFormatter: std::set and std::unordered_set. A set is the list of
-- its elements in the order of their insertion; `same` is the equality that its comparison or hash
-- gives. The order of its iterator is not modelled: a set is written in any order.
pub mod Laws
use memory_pack_cpp.Base.{ℕ, zero, suc, Bool, true, false, List, [], ◌∷◌, ◌++◌, ◌||◌, if◌then◌else◌}
use memory_pack_cpp.Outcome.{pure, ◌>>=◌}
use memory_pack_cpp.Reader.{Read, is_failed}
use memory_pack_cpp.Reader.Headers.{read_collection_length}
use memory_pack_cpp.Format.{Formatter, collection, container_min_size}
use memory_pack_cpp.Format.Collections.{is_empty_length, write_collection}

module _ {A : Type 0} (F : Formatter A) (same : A → A → Bool) where
  abbrev pub has : A → List A → Bool
  has v [] = false
  has v (w ∷ ws) = same v w || has v ws

  -- c.insert(value): an element that is there stays.
  unfoldable pub insert : List A → A → List A
  insert vs v = if has v vs then vs else vs ++ (v ∷ [])

  -- for (int32_t i = 0; i < len && !r.Failed(); ++i) { T value{}; r.Read(value); c.insert(value); }
  unfoldable pub read_elements : ℕ → List A → Read (List A)
  unfolding insert
  read_elements zero vs = pure vs
  read_elements (suc left) vs = do
    bad ← is_failed
    if bad then pure vs else (do v ← F.deserialize F.init; read_elements left (insert vs v))

  -- SetFormatter<Container>::Deserialize
  unfoldable pub read_set : Read (List A)
  unfolding read_elements
  read_set = do
    len ← read_collection_length (container_min_size F.kind)
    if is_empty_length len then pure [] else read_elements len []

  -- SetFormatter<Container>, whose Serialize is that of SequenceFormatter.
  abbrev pub set_formatter : Formatter (List A)
  set_formatter = record {
    kind = collection;
    init = [];
    serialize = write_collection F;
    deserialize = λ _. read_set;
  }
