-- ===== src/Reader/Yields.antt =====
-- include/memorypack/core.hpp, MemoryPackReader: reads whose results satisfy a predicate on any input.
use memory_pack_cpp.Base.{
  ℕ, ◌+◌, ◌≤◌, ◌≡◌, refl, sym, subst, Bool, true, false, List, length, if◌then◌else◌,
}
use memory_pack_cpp.Outcome.{pure, ◌>>=◌, Ensures, returns, Ensures-bind, Ensures-weaken}
use memory_pack_cpp.Reader.{Reader, Read, IsValid, failed, ensure_bytes, take_bytes, move}
use memory_pack_cpp.Reader.Safe.{Safe, Kept, ensure_bytes_lem, take_bytes-Safe, move-Safe}

-- A read that is defined on any input, and whose results satisfy `P`.
abbrev pub Yields : {A : Type 0} → (A → Type 0) → Read A → Type 0
Yields P m = (r : Reader) → IsValid r → Ensures (λ a r'. P a × IsValid r') IsValid (m r)

pub Yields-bind :
    {A B : Type 0} {P : A → Type 0} {Q : B → Type 0} (m : Read A) (f : A → Read B)
    → Yields P m
    → ((a : A) → P a → Yields Q (f a))
    → Yields Q (m >>= f)
Yields-bind m f h k r v = Ensures-bind (h r v) (λ a s q. k a q.0 s q.1)

pub Yields-pure : {A : Type 0} {P : A → Type 0} (a : A) → P a → Yields P (pure a)
Yields-pure a h r v = returns (h, v)

pub Yields-if :
    {A : Type 0} {P : A → Type 0} (b : Bool) (m n : Read A)
    → Yields P m
    → Yields P n
    → Yields P (if b then m else n)
Yields-if true m n h k = h
Yields-if false m n h k = k

-- Any result of a safe read is one.
pub Yields-Safe : {A : Type 0} (m : Read A) → Safe m → Yields (λ _. Unit {0}) m
Yields-Safe m h r v = Ensures-weaken (h r v) (λ _ s k. (tt, k.valid)) (λ s k. k.kept.valid)

-- The shape of every bounds-checked read.
pub Yields-guarded :
    {A : Type 0} {P : A → Type 0} (n : ℕ) (k : Bool → Read A)
    → ((r : Reader)
        → IsValid r
        → r.pos + n ≤ length r.bytes
        → Ensures (λ a r'. P a × IsValid r') IsValid (k true r))
    → Yields P (k false)
    → Yields P (ensure_bytes n >>= k)
Yields-guarded {P = P} n k h l r v =
    Ensures-bind (Ensures-weaken (ensure_bytes_lem n r v) (λ _ s q. q) (λ s q. q.kept.valid)) step
  where
    step :
        (enough : Bool) (s : Reader)
        → Kept r s × (enough ≡ true → (s ≡ r) × (failed r ≡ false) × (r.pos + n ≤ length r.bytes))
        → Ensures (λ a r'. P a × IsValid r') IsValid (k enough s)
    step true s q =
        let (e, c, b) = q.1 refl in
        subst (λ t. Ensures (λ a r'. P a × IsValid r') IsValid (k true t)) (sym e) (h r v b)
    step false s q = l s q.0.valid

pub Yields-checked :
    {A : Type 0} {P : A → Type 0} (n : ℕ) (f : List ℕ → A) (d : A)
    → P d
    → ((bs : List ℕ) → P (f bs))
    → Yields P (
        ensure_bytes n >>= λ enough.
        if enough then (take_bytes n >>= λ bs. pure (f bs)) else pure d)
Yields-checked n f d h k =
    Yields-guarded n _
      (λ r v b.
        Ensures-bind
          (Ensures-weaken (take_bytes-Safe n r v b) (λ _ s q. q.valid) (λ s q. q.kept.valid))
          (λ bs s q. returns (k bs, q)))
      (Yields-pure d h)

pub Yields-moved :
    {A : Type 0} {P : A → Type 0} (n : ℕ) (a : A)
    → P a
    → Yields P (ensure_bytes n >>= λ enough. if enough then (move n >>= λ _. pure a) else pure a)
Yields-moved n a h =
    Yields-guarded n _
      (λ r v b.
        Ensures-bind (Ensures-weaken (move-Safe n r v b) (λ _ s q. q.valid) (λ s q. q.kept.valid))
          (λ _ s q. returns (h, q)))
      (Yields-pure a h)
