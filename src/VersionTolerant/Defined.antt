-- ===== src/VersionTolerant/Defined.antt =====
-- include/memorypack/core.hpp, VersionTolerantReader: an object whose opening did not fail has a length
-- for each of its members, and reading it touches nothing else.
use memory_pack_cpp.Base.{
  ℕ, zero, suc, ◌+◌, ◌-◌, ◌<◌, ◌≡◌, ◌⊎◌, inl, inr, refl, ap, Bool, true, false, List, [], ◌∷◌,
  length, get_elem?, leb, ◌||◌, if◌then◌else◌, some, arith,
}
use memory_pack_cpp.Outcome.{
  no_error, is_error, Outcome, after, pure, Ensures, returns, Ensures-bind, Ensures-weaken,
}
use memory_pack_cpp.Reader.{Reader, Read, IsValid, seek, is_failed, get_position}
use memory_pack_cpp.Reader
use memory_pack_cpp.Reader.Safe.{
  Kept, Raised, SafeFrom, Safe, Kept-refl, Kept-trans, Raised-trans, seek-Safe, Safe-if, Safe-pure,
}
use memory_pack_cpp.Reader.Headers.Safe.{read_object_header-Safe, read_varint_length-Safe}
use memory_pack_cpp.Format.{Formatter, IsSafe}
use memory_pack_cpp.VersionTolerant.{
  VersionTolerantReader, read_lengths, open_object, has_no_more, member_length, read_member,
  skip_member, skip_all, finish,
}

-- Safe from `r` on, with `Q` of what a return gives.
abbrev pub SafeWith : {A : Type 0} → (A → Reader → Type 0) → Reader → Outcome Reader A → Type 0
SafeWith Q r o = Ensures (λ a s. Kept r s × Q a s) (Raised r) o

SafeWith-bind :
    {A B : Type 0} {Q : B → Reader → Type 0} {r : Reader} {o : Outcome Reader A} {f : A → Read B}
    → SafeFrom r o
    → ((a : A) (s : Reader) → Kept r s → SafeWith Q s (f a s))
    → SafeWith Q r (after o f)
SafeWith-bind h k =
    Ensures-bind h
      λ a s q. Ensures-weaken (k a s q) (λ b t l. (Kept-trans q l.0, l.1)) (λ t l. Raised-trans q l)

-- The same behind a step that says something itself.
SafeWith-then :
    {A B : Type 0} {P : A → Reader → Type 0} {Q : B → Reader → Type 0} {r : Reader}
    {o : Outcome Reader A} {f : A → Read B}
    → SafeWith P r o
    → ((a : A) (s : Reader) → Kept r s → P a s → SafeWith Q s (f a s))
    → SafeWith Q r (after o f)
SafeWith-then h k = Ensures-bind h λ a s q.
    Ensures-weaken (k a s q.0 q.1) (λ b t l. (Kept-trans q.0 l.0, l.1)) (λ t l. Raised-trans q.0 l)

SafeWith-if :
    {A : Type 0} {Q : A → Reader → Type 0} (b : Bool) (m n : Read A) {r s : Reader}
    → (b ≡ true → SafeWith Q r (m s))
    → (b ≡ false → SafeWith Q r (n s))
    → SafeWith Q r ((if b then m else n) s)
SafeWith-if true m n h k = h refl
SafeWith-if false m n h k = k refl

read_lengths-Measured :
    (n : ℕ) (r : Reader)
    → IsValid r
    → SafeWith (λ lens s. s.error ≡ no_error → length lens ≡ n) r (read_lengths n r)
unfolding read_lengths is_failed
read_lengths-Measured zero r v = returns (Kept-refl v, λ _. refl)
read_lengths-Measured (suc left) r v =
    SafeWith-if (Reader.failed r) (pure []) _
      (λ bad.
        returns
          (Kept-refl v, λ clean. let fine : is_error r.error ≡ false = ap is_error clean in cc))
      (λ _. SafeWith-bind (read_varint_length-Safe r v) (λ len s q.
        SafeWith-then (read_lengths-Measured left s q.valid)
          (λ lens t k all. returns (Kept-refl k.valid, λ clean. ap suc (all clean)))))

-- An object reader has a length for each member that its count announces.
abbrev pub IsMeasured : VersionTolerantReader → Type 0
IsMeasured vt = (vt.is_null ≡ true) ⊎ (length vt.lengths ≡ vt.count)

-- Opening an object is safe on any input, and where it leaves no error recorded, the object has a
-- length for each of its members.
pub open_object-IsMeasured :
    (r : Reader)
    → IsValid r
    → SafeWith (λ vt s. s.error ≡ no_error → IsMeasured vt) r (open_object r)
unfolding open_object get_position
open_object-IsMeasured r v = SafeWith-bind (read_object_header-Safe r v) (λ header s q.
    SafeWith-if header.is_null _ _ (λ _. returns (Kept-refl q.valid, λ _. inl refl))
      (λ _.
        SafeWith-then (read_lengths-Measured header.count s q.valid)
          (λ lens t k all. returns (Kept-refl k.valid, λ clean. inr (all clean)))))

get_elem?-some :
    {A : Type 0} (xs : List A) (i : ℕ) → i < length xs → (x : A) × (get_elem? xs i ≡ some x)
get_elem?-some [] i h = absurd (omega arith)
get_elem?-some (x ∷ xs) zero h = (x, refl)
get_elem?-some (x ∷ xs) (suc i) h = get_elem?-some xs i (omega arith)

more_left :
    (is_null : Bool) (count index : ℕ)
    → (is_null || leb count index) ≡ false
    → (is_null ≡ false) × (index < count)
more_left true count index more = cc
more_left false count index more = (refl, ground arith)

inside_lengths :
    (vt : VersionTolerantReader)
    → IsMeasured vt
    → has_no_more vt ≡ false
    → vt.index < length vt.lengths
inside_lengths vt (inl null) more = let e = (more_left vt.is_null vt.count vt.index more).0 in cc
inside_lengths vt (inr size) more =
    omega (arith, size, (more_left vt.is_null vt.count vt.index more).1)

member_length-Safe :
    (vt : VersionTolerantReader) → IsMeasured vt → has_no_more vt ≡ false → Safe (member_length vt)
unfolding member_length
member_length-Safe vt ok more r v =
    let (len, e) = get_elem?-some vt.lengths vt.index (inside_lengths vt ok more) in
    rw (member_length, e) (returns (Kept-refl v))

-- Reading a member of an object with a length for each member is safe on any input, and leaves such
-- an object, where the member's formatter is safe.
read_member-IsMeasured :
    {A : Type 0} (F : Formatter A) (vt : VersionTolerantReader) (out : A) (r : Reader)
    → IsSafe F
    → IsMeasured vt
    → IsValid r
    → SafeWith (λ m s. IsMeasured m.object) r (read_member F vt out r)
unfolding read_member is_failed
read_member-IsMeasured F vt out r safe ok v =
    SafeWith-if (has_no_more vt) _ _ (λ _. returns (Kept-refl v, ok))
      (λ more. SafeWith-bind (member_length-Safe vt ok more r v) (λ len s q.
        SafeWith-bind (seek-Safe vt.next s q.valid) (λ _ t k.
          SafeWith-if (Reader.failed t) _ _ (λ _. returns (Kept-refl k.valid, ok))
            (λ _. SafeWith-bind (safe out t k.valid) (λ x u l.
              SafeWith-bind (seek-Safe (vt.next + len) u l.valid)
                (λ _ w m. returns (Kept-refl m.valid, ok)))))))

skip_member-IsMeasured :
    (vt : VersionTolerantReader) (r : Reader)
    → IsMeasured vt
    → IsValid r
    → SafeWith (λ vt' s. IsMeasured vt') r (skip_member vt r)
unfolding skip_member
skip_member-IsMeasured vt r ok v =
    SafeWith-if (has_no_more vt) _ _ (λ _. returns (Kept-refl v, ok))
      (λ more. SafeWith-bind (member_length-Safe vt ok more r v) (λ len s q.
        SafeWith-bind (seek-Safe (vt.next + len) s q.valid)
          (λ _ t k. returns (Kept-refl k.valid, ok))))

skip_all-IsMeasured :
    (left : ℕ) (vt : VersionTolerantReader) (r : Reader)
    → IsMeasured vt
    → IsValid r
    → SafeWith (λ vt' s. IsMeasured vt') r (skip_all left vt r)
unfolding skip_all
skip_all-IsMeasured zero vt r ok v = returns (Kept-refl v, ok)
skip_all-IsMeasured (suc left) vt r ok v =
    SafeWith-then (skip_member-IsMeasured vt r ok v)
      (λ vt' s q ok'. skip_all-IsMeasured left vt' s ok' q.valid)

finish-Safe : (vt : VersionTolerantReader) → IsMeasured vt → Safe (finish vt)
unfolding finish
finish-Safe vt ok r v =
    Ensures-bind (skip_all-IsMeasured (vt.count - vt.index) vt r ok v) (λ vt' s q.
      Ensures-weaken (null_or_seek vt' s q.0.valid) (λ _ t l. Kept-trans q.0 l)
        (λ t l. Raised-trans q.0 l))
  where
    null_or_seek :
        (vt' : VersionTolerantReader) → Safe (if vt'.is_null then pure tt else seek vt'.next)
    null_or_seek vt' = Safe-if vt'.is_null (Safe-pure tt) (seek-Safe vt'.next)

-- With a length for each member, `ReadMember` through a safe formatter, `SkipMember` and `Finish` are
-- defined on any input: they touch no memory outside the input and the lengths, keep the position in
-- bounds and replace no error, and leave a length for each member. By `open_object-IsMeasured` the
-- constructor gives such an object, unless the reader has failed.
pub IsMeasured-IsSafe :
    {A : Type 0} (F : Formatter A) (vt : VersionTolerantReader) (out : A) (r : Reader)
    → IsSafe F
    → IsMeasured vt
    → IsValid r
    → SafeWith (λ m s. IsMeasured m.object) r (read_member F vt out r)
      × SafeWith (λ vt' s. IsMeasured vt') r (skip_member vt r)
      × SafeFrom r (finish vt r)
IsMeasured-IsSafe F vt out r safe ok v = (
  read_member-IsMeasured F vt out r safe ok v,
  skip_member-IsMeasured vt r ok v,
  finish-Safe vt ok r v,
)
