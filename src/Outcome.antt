-- ===== src/Outcome.antt =====
-- include/memorypack/core.hpp: error codes, and how a call ends in either build of the library.
use memory_pack_cpp.Base.{◌≡◌, ◌≢◌, ◌⊎◌, inl, inr, refl, Bool, true, false, if◌then◌else◌}

-- enum class MemoryPackError
pub data MemoryPackError : Type 0 where
  no_error buffer_underflow buffer_overflow invalid_header : MemoryPackError
  length_limit invalid_string trailing_bytes not_supported : MemoryPackError

-- How a call on an object with state `S` ends. `thrown` is a MemoryPackException with its code,
-- with the state it leaves behind; `fault` is undefined behaviour: memory is touched outside
-- its bounds, or a loop without effect never ends.
pub data Outcome (S A : Type 0) : Type 0 where
  returned : A → S → Outcome S A
  thrown : MemoryPackError → S → Outcome S A
  fault : Outcome S A

abbrev pub Action : Type 0 → Type 0 → Type 0
Action S A = S → Outcome S A

module _ {S : Type 0} where
  abbrev pub pure : {A : Type 0} → A → Action S A
  pure a s = returned a s

  abbrev pub after : {A B : Type 0} → Outcome S A → (A → Action S B) → Outcome S B
  after (returned a s) f = f a s
  after (thrown e s) f = thrown e s
  after fault f = fault

  infixl 5 ◌>>=◌ ◌>>◌
  abbrev pub ◌>>=◌ : {A B : Type 0} → Action S A → (A → Action S B) → Action S B
  (m >>= f) s = after (m s) f

  abbrev pub ◌>>◌ : {B : Type 0} → Action S (Unit {0}) → Action S B → Action S B
  (m >> k) s = after (m s) (λ _. k)

-- A call ends with a result or an exception, never by `fault`; `Q` holds of what it leaves.
pub data Ensures {S A : Type 0} (Q : A → S → Type 0) (T : S → Type 0) : Outcome S A → Type 0 where
  returns : {a : A} {s : S} → Q a s → Ensures Q T (returned a s)
  throws : {e : MemoryPackError} {s : S} → T s → Ensures Q T (thrown e s)

pub Ensures-bind :
    {S A B : Type 0} {Q : A → S → Type 0} {R : B → S → Type 0} {T : S → Type 0} {o : Outcome S A}
    {f : A → Action S B}
    → Ensures Q T o
    → ((a : A) (s : S) → Q a s → Ensures R T (f a s))
    → Ensures R T (after o f)
Ensures-bind (returns {a} {s} q) k = k a s q
Ensures-bind (throws t) k = throws t

pub Ensures-weaken :
    {S A : Type 0} {Q R : A → S → Type 0} {T U : S → Type 0} {o : Outcome S A}
    → Ensures Q T o
    → ((a : A) (s : S) → Q a s → R a s)
    → ((s : S) → T s → U s)
    → Ensures R U o
Ensures-weaken (returns {a} {s} q) k l = returns (k a s q)
Ensures-weaken (throws {s = s} t) k l = throws (l s t)

pub Ensures-if :
    {S A : Type 0} {Q : A → S → Type 0} {T : S → Type 0} (b : Bool) {x y : Outcome S A}
    → (b ≡ true → Ensures Q T x)
    → (b ≡ false → Ensures Q T y)
    → Ensures Q T (if b then x else y)
Ensures-if true h k = h refl
Ensures-if false h k = k refl

-- The first error is kept.
abbrev pub first_error : MemoryPackError → MemoryPackError → MemoryPackError
first_error no_error code = code
first_error old code = old

abbrev pub is_error : MemoryPackError → Bool
is_error no_error = false
is_error _ = true

pub first_error_sticky :
    (old code : MemoryPackError) → (old ≡ no_error) ⊎ (first_error old code ≡ old)
first_error_sticky no_error code = inl refl
first_error_sticky _ code = inr refl

pub first_error_records :
    (old code : MemoryPackError) → code ≢ no_error → first_error old code ≢ no_error
first_error_records no_error code h = h
first_error_records buffer_underflow code h = λ e. cc
first_error_records _ code h = λ e. cc

pub after_assoc :
    {S A B C : Type 0} (o : Outcome S A) (f : A → Action S B) (g : B → Action S C)
    → after (after o f) g ≡ after o (λ a s. after (f a s) g)
after_assoc (returned a s) f g = refl
after_assoc (thrown e s) f g = refl
after_assoc fault f g = refl
