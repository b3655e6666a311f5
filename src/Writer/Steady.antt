-- ===== src/Writer/Steady.antt =====
-- include/memorypack/core.hpp, MemoryPackWriter over the caller's vector: writes that end, by a return
-- or by an exception, however much is written.
use memory_pack_cpp.Base.{
  ℕ, ◌≡◌, refl, Bool, true, false, List, [], ◌∷◌, length, ltb, ◌==◌, if◌then◌else◌, none, some,
}
use memory_pack_cpp.Outcome.{
  MemoryPackError, length_limit, invalid_header, pure, ◌>>=◌, ◌>>◌, Action, Ensures, returns,
  throws, Ensures-bind, Ensures-if,
}
use memory_pack_cpp.Writer.{Writer, Write, fail, append_byte, append_bytes}
use memory_pack_cpp.Writer.Headers.{write_raw, write_object_header, to_int32_length, if_length}
use memory_pack_cpp.Writer.Strings.{write_string}

-- The writer appends to the caller's vector.
abbrev pub HasVector : Writer → Type 0
HasVector w = (v : List ℕ) × (w.vec ≡ some v)

-- The write ends, and its writer still has the vector.
abbrev pub Steady : {A : Type 0} → Action Writer A → Type 0
Steady m = (w : Writer) → HasVector w → Ensures (λ _ w'. HasVector w') HasVector (m w)

pub Steady-pure : {A : Type 0} (a : A) → Steady (pure a)
Steady-pure a w h = returns h

pub Steady-bind :
    {A B : Type 0} (m : Action Writer A) (f : A → Action Writer B)
    → Steady m
    → ((a : A) → Steady (f a))
    → Steady (m >>= f)
Steady-bind m f h k w v = Ensures-bind (h w v) (λ a s q. k a s q)

pub Steady-then :
    {B : Type 0} (m : Write) (n : Action Writer B) → Steady m → Steady n → Steady (m >> n)
Steady-then m n h k w v = Ensures-bind (h w v) (λ a s q. k s q)

pub Steady-if :
    {A : Type 0} (b : Bool) (m n : Action Writer A)
    → Steady m
    → Steady n
    → Steady (if b then m else n)
Steady-if true m n h k = h
Steady-if false m n h k = k

fail-Steady : (code : MemoryPackError) → Steady (fail code)
unfolding fail
fail-Steady code w h = Ensures-if w.has_exceptions (λ _. throws h) (λ _. returns h)

append_byte-Steady : (b : ℕ) → Steady (append_byte b)
unfolding append_byte
append_byte-Steady b w (v, e) = rw e (returns (_, refl))

pub append_bytes-Steady : (src : List ℕ) → Steady (append_bytes src)
unfolding append_bytes
append_bytes-Steady src w (v, e) =
    Ensures-if (length src == 0) (λ _. returns (v, e)) (λ _. rw e (returns (_, refl)))

pub write_raw-Steady : (size v : ℕ) → Steady (write_raw size v)
unfolding write_raw
write_raw-Steady size v = append_bytes-Steady _

pub write_object_header-Steady : (count : ℕ) → Steady (write_object_header count)
unfolding write_object_header
write_object_header-Steady count =
    Steady-if _ _ _ (fail-Steady invalid_header) (append_byte-Steady count)

-- A length that is checked, and what is written with it.
pub counted-Steady :
    (n : ℕ) (k : ℕ → Write)
    → ((count : ℕ) → Steady (k count))
    → Steady (to_int32_length n >>= λ c. if_length c k)
unfolding to_int32_length
counted-Steady n k h =
    Steady-bind (to_int32_length n) (λ c. if_length c k)
      (Steady-if (ltb 0x7FFFFFFF n) _ _
        (Steady-then (fail length_limit) (pure none) (fail-Steady length_limit) (Steady-pure none))
        (Steady-pure (some n)))
      λ c. elim c as (λ o. Steady (if_length o k)) [ none ↦ Steady-pure tt | some count ↦ h count ]

pub write_string-Steady : (s : List ℕ) → Steady (write_string s)
unfolding write_string
write_string-Steady [] = write_raw-Steady 4 0
write_string-Steady (c ∷ cs) = counted-Steady (length (c ∷ cs)) _ λ n.
    Steady-then (write_raw 4 _) _ (write_raw-Steady 4 _) (
      Steady-then (write_raw 4 _) (append_bytes (c ∷ cs)) (write_raw-Steady 4 _)
        (append_bytes-Steady (c ∷ cs)))
