-- ===== src/Format/Unions/Laws.antt =====
-- include/memorypack/containers.hpp, MemoryPackFormatter<std::variant<Ts...>>: unions are safe where
-- their alternatives are, and give back the alternative that was written.
use memory_pack_cpp.Base.{
  ℕ, ◌+◌, ◌≤◌, ◌<◌, ◌^◌, ◌≡◌, ◌≢◌, refl, ap, List, [], ◌∷◌, ◌++◌, length, ◌==◌, Option, none, some,
  All, arith, ne→==false, eq→==true,
}
use memory_pack_cpp.Wire.{union_wire}
use memory_pack_cpp.Outcome.{is_error, returned, pure, ◌>>=◌}
use memory_pack_cpp.Reader.{Reader, IsValid, advance, get_remaining, remaining, move}
use memory_pack_cpp.Reader.Safe.{
  Safe, SafeFrom, Safe-bind, Safe-pure, Safe-if, advance-Safe, get_remaining-Safe,
  ensure_bytes_passes, remaining_lem,
}
use memory_pack_cpp.Reader.Reads.{
  Ready, Reads, Ahead, advanced, Ahead-bound, Ready-advanced, Reads-bind, Reads-map,
}
use memory_pack_cpp.Reader.Headers.{read_union_header}
use memory_pack_cpp.Reader.Headers.Safe.{read_union_header-Safe}
use memory_pack_cpp.Reader.Headers.Reads.{read_union_header-Reads}
use memory_pack_cpp.Format.{Lawful, IsSafe}
use memory_pack_cpp.Format.Unions.{
  Alternative, read_union_alternative, skip_rest, or_skip, read_tagged, deserialize_variant,
}

abbrev pub AlternativesSafe : {V : Type 0} → List (Alternative V) → Type 0
AlternativesSafe alts = All (λ a. IsSafe a.format) alts

-- No alternative has the tag.
abbrev pub IsUnknown : {V : Type 0} → ℕ → List (Alternative V) → Type 0
IsUnknown tag alts = All (λ a. a.tag ≢ tag) alts

module _ {V : Type 0} where
  read_union_alternative-Safe :
      (alts : List (Alternative V)) (tag : ℕ)
      → AlternativesSafe alts
      → Safe (read_union_alternative alts tag)
  unfolding read_union_alternative
  read_union_alternative-Safe [] tag h = Safe-pure none
  read_union_alternative-Safe (a ∷ alts) tag h =
      Safe-if (a.tag == tag) (Safe-bind (h.0 a.format.init) (λ x. Safe-pure _))
        (read_union_alternative-Safe alts tag h.1)

  skip_rest-Safe : (v : V) → Safe (skip_rest v)
  unfolding skip_rest
  skip_rest-Safe v =
      Safe-bind get_remaining-Safe (λ left. Safe-bind (advance-Safe left) (λ _. Safe-pure v))

  or_skip-Safe : (old : V) (o : Option V) → Safe (or_skip old o)
  or_skip-Safe old none = skip_rest-Safe old
  or_skip-Safe old (some v) = Safe-pure v

  read_tagged-Safe :
      (init : V) (alts : List (Alternative V)) (old : V) (tag : Option ℕ)
      → AlternativesSafe alts
      → Safe (read_tagged init alts old tag)
  read_tagged-Safe init alts old none h = Safe-pure init
  read_tagged-Safe init alts old (some tag) h =
      Safe-bind (read_union_alternative-Safe alts tag h) (or_skip-Safe old)

  -- Reading a union of alternatives that are safe to read touches no memory outside the input, keeps
  -- the position in bounds and replaces no error, whatever tag the input has.
  pub deserialize_variant-Safe :
      (init : V) (alts : List (Alternative V))
      → AlternativesSafe alts
      → (old : V) (r : Reader) → IsValid r
      → SafeFrom r (deserialize_variant init alts old r)
  unfolding deserialize_variant
  deserialize_variant-Safe init alts h old =
      Safe-bind read_union_header-Safe (λ tag. read_tagged-Safe init alts old tag h)

  -- The alternatives before the one with the tag are passed over.
  read_union_alternative-found :
      (before after : List (Alternative V)) (a : Alternative V)
      → IsUnknown a.tag before
      → read_union_alternative (before ++ (a ∷ after)) a.tag
        ≡ (a.format.deserialize a.format.init >>= λ x. pure (some (a.emplace x)))
  unfolding read_union_alternative
  read_union_alternative-found [] after a h = rw (eq→==true a.tag a.tag refl)
  read_union_alternative-found (b ∷ before) after a h =
      rw (ne→==false b.tag a.tag h.0) (read_union_alternative-found before after a h.1)

  read_union_alternative-unknown :
      (alts : List (Alternative V)) (tag : ℕ)
      → IsUnknown tag alts
      → read_union_alternative alts tag ≡ pure none
  unfolding read_union_alternative
  read_union_alternative-unknown [] tag h = refl
  read_union_alternative-unknown (a ∷ alts) tag h =
      rw (ne→==false a.tag tag h.0) (read_union_alternative-unknown alts tag h.1)

  -- A union reads back the alternative that its tag names: the header and the encoding of a value are
  -- taken off the front of the unread input, and the value is put into the first alternative with
  -- the tag. The reader has no error, limits that allow every int32 length, and levels enough left.
  pub deserialize_variant-Reads :
      (init : V) (before after : List (Alternative V)) (a : Alternative V) (L : Lawful a.format)
      (old : V) (x : a.Value) (n : ℕ)
      → IsUnknown a.tag before
      → a.tag < 2 ^ 16
      → L.levels ≤ n
      → L.IsEncodable x
      → (r : Reader) (rest : List ℕ) → Ready n r
      → Ahead r (union_wire a.tag ++ L.wire x) rest
      → deserialize_variant init (before ++ (a ∷ after)) old r
        ≡ returned (a.emplace x) (advanced (length (union_wire a.tag ++ L.wire x)) r)
  unfolding deserialize_variant
  deserialize_variant-Reads init before after a L old x n first small deep h =
      let body : Reads n (a.format.deserialize a.format.init >>= λ y. pure (some (a.emplace y)))
          (L.wire x) (some (a.emplace x)) =
        Reads-map (a.format.deserialize a.format.init) (λ y. some (a.emplace y)) (L.wire x)
          (L.reads n a.format.init x deep h) in
      let tagged : Reads n (read_tagged init (before ++ (a ∷ after)) old (some a.tag)) (L.wire x)
          (a.emplace x) =
        rw (read_union_alternative-found before after a first)
          (λ r rest ready ahead. rw (body r rest ready ahead)) in
      Reads-bind read_union_header (read_tagged init (before ++ (a ∷ after)) old) (union_wire a.tag)
        (L.wire x) (read_union_header-Reads a.tag small) tagged

  skip_rest-end :
      (v : V) (n : ℕ) (r : Reader)
      → Ready n r
      → skip_rest v r ≡ returned v (record r { pos = length r.bytes })
  unfolding skip_rest get_remaining advance move
  skip_rest-end v n r ready =
      let left = remaining_lem r ready.valid in
      let within = ready.valid.in_bounds in
      let e : r.pos + remaining r ≡ length r.bytes = omega arith in
      rw (ensure_bytes_passes (remaining r) r ready.valid (ap is_error ready.clean) (omega arith))
        (ap (λ (p : ℕ). returned v (record r { pos = p })) e)

  -- A tag that no alternative has leaves the value as it was, and skips all of the input that is
  -- left: what follows the union is lost with it. The reader has no error.
  pub deserialize_variant-unknown :
      (init : V) (alts : List (Alternative V)) (old : V) (tag n : ℕ)
      → IsUnknown tag alts
      → tag < 2 ^ 16
      → (r : Reader) (rest : List ℕ) → Ready n r
      → Ahead r (union_wire tag) rest
      → deserialize_variant init alts old r ≡ returned old (record r { pos = length r.bytes })
  unfolding deserialize_variant
  deserialize_variant-unknown init alts old tag n unknown small r rest ready ahead =
      let read = read_union_header-Reads tag small r rest ready ahead in
      let next =
        Ready-advanced (length (union_wire tag)) ready
          (Ahead-bound r (union_wire tag) rest ready.valid ahead) in
      rw (read, read_union_alternative-unknown alts tag unknown) (skip_rest-end old n _ next)
