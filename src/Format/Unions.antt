-- ===== src/Format/Unions.antt =====
-- include/memorypack/containers.hpp: std::variant as a union, whose alternatives have tags.
pub mod Laws
use memory_pack_cpp.Base.{
  ℕ, Bool, true, false, List, [], ◌∷◌, ◌==◌, if◌then◌else◌, Option, none, some,
}
use memory_pack_cpp.Outcome.{pure, ◌>>=◌, ◌>>◌}
use memory_pack_cpp.Reader.{Read, advance, get_remaining}
use memory_pack_cpp.Reader.Headers.{read_union_header}
use memory_pack_cpp.Writer.{Write}
use memory_pack_cpp.Writer.Headers.{write_union_header}
use memory_pack_cpp.Format.{Formatter, object}

-- One alternative of a variant V: its type's formatter, MemoryPackUnionTag<Alternative>::value,
-- std::get_if and std::variant::emplace.
pub record Alternative (V : Type 0) : Type 1 where
  pub Value : Type 0
  pub format : Formatter Value
  pub tag : ℕ
  pub get_if : V → Option Value
  pub emplace : Value → V

module _ {V : Type 0} where
  -- std::visit with the alternative that `v` holds: WriteUnionHeader, then Write.
  unfoldable pub serialize_variant : List (Alternative V) → V → Write
  serialize_variant [] v = pure tt
  serialize_variant (a ∷ others) v = elim (a.get_if v) [
    | none ↦ serialize_variant others v
    | some x ↦ write_union_header a.tag >> a.format.serialize x
  ]

  -- bool ReadUnionAlternative(MemoryPackReader& r, Variant& v, uint16_t tag, ...): the new value of
  -- `v` where an alternative has the tag.
  unfoldable pub read_union_alternative : List (Alternative V) → ℕ → Read (Option V)
  read_union_alternative [] tag = pure none
  read_union_alternative (a ∷ others) tag =
      let next = read_union_alternative others tag in
      if a.tag == tag
      then (do x ← a.format.deserialize a.format.init; pure (some (a.emplace x)))
      else next

  -- r.Advance(r.Remaining())
  unfoldable pub skip_rest : V → Read V
  skip_rest v = do left ← get_remaining; advance left; pure v

  abbrev pub or_skip : V → Option V → Read V
  or_skip old none = skip_rest old
  or_skip old (some v) = pure v

  abbrev pub read_tagged : V → List (Alternative V) → V → Option ℕ → Read V
  read_tagged init alternatives old none = pure init
  read_tagged init alternatives old (some tag) =
      read_union_alternative alternatives tag >>= or_skip old

  -- MemoryPackFormatter<std::variant<Ts...>>::Deserialize, with `init` for V{}.
  unfoldable pub deserialize_variant : V → List (Alternative V) → V → Read V
  unfolding read_union_alternative skip_rest
  deserialize_variant init alternatives old =
      read_union_header >>= read_tagged init alternatives old

  abbrev pub variant_formatter : V → List (Alternative V) → Formatter V
  variant_formatter init alternatives = record {
    kind = object;
    init = init;
    serialize = serialize_variant alternatives;
    deserialize = deserialize_variant init alternatives;
  }
