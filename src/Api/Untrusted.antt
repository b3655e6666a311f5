-- ===== src/Api/Untrusted.antt =====
-- include/memorypack/core.hpp: deserializing input that nobody vouches for.
use memory_pack_cpp.Base.{
  ℕ, ◌<◌, ◌^◌, ◌≡◌, ◌≢◌, refl, ap, Bool, true, List, length, ◌⊎◌, inl, inr, arith,
}
use memory_pack_cpp.Outcome.{
  MemoryPackError, no_error, buffer_underflow, is_error, Outcome, returned, thrown, Ensures,
  returns, throws,
}
use memory_pack_cpp.Reader.{Reader, IsValid, new_reader, default_options}
use memory_pack_cpp.Reader.Safe.{Kept, Raised}
use memory_pack_cpp.Format.{Formatter, IsSafe}
use memory_pack_cpp.Api.{value, try_deserialize, expected_of}

-- What the result says of the read that it comes from: a value is what a read returned that ended
-- with no error recorded and its position inside the input; an error is a real one, the one that is
-- recorded in the reader that the read left by a return or an exception.
abbrev pub Reports : {A : Type 0} → Outcome Reader A → A ⊎ MemoryPackError → Type 0
Reports {A} o (inl v) = (r : Reader) × (o ≡ returned v r) × (r.error ≡ no_error) × IsValid r
Reports {A} o (inr e) =
    (e ≢ no_error)
    × ((r : Reader) × (r.error ≡ e)
        × (((v : A) × (o ≡ returned v r)) ⊎ ((code : MemoryPackError) × (o ≡ thrown code r))))

error_cases : (e : MemoryPackError) → (e ≡ no_error) ⊎ ((is_error e ≡ true) × (e ≢ no_error))
error_cases no_error = inl refl
error_cases buffer_underflow = inr (refl, λ p. cc)
error_cases _ = inr (refl, λ p. cc)

module _ (exceptions : Bool) {A : Type 0} (F : Formatter A) where
  abbrev Reported : Outcome Reader A → Type 0
  Reported o = (r : A ⊎ MemoryPackError) × (expected_of exceptions F o ≡ value r) × Reports o r

  returned-Reported : (v : A) (r0 r : Reader) → Kept r0 r → Reported (returned v r)
  returned-Reported v r0 r kept = elim (error_cases r.error) [
    | inl clean ↦ (inl v, rw (ap is_error clean), (r, refl, clean, kept.valid))
    | inr (failed, real) ↦ (inr r.error, rw failed, (real, (r, refl, inl (v, refl))))
  ]

  expected_of_lem :
      (r0 : Reader) (o : Outcome Reader A) → Ensures (λ _ r. Kept r0 r) (Raised r0) o → Reported o
  expected_of_lem r0 o (returns {a = v} {s = r} kept) = returned-Reported v r0 r kept
  expected_of_lem r0 o (throws {e = code} {s = r} raised) = elim (error_cases r.error) [
    | inl clean ↦ absurd (raised.recorded clean)
    | inr (failed, real) ↦ (inr r.error, rw failed, (real, (r, refl, inr (code, refl))))
  ]

  -- `TryDeserialize` through a safe formatter is defined on every input, however malformed, in
  -- either build. It gives a value only where the read returned that value with no error recorded
  -- and its position inside the input, and an error, other than `None`, only where the read ended
  -- with that error recorded.
  pub try_deserialize-Reports :
      (input : List ℕ)
      → IsSafe F
      → length input < 2 ^ 64
      → (r : A ⊎ MemoryPackError) × (try_deserialize exceptions F input ≡ value r)
        × Reports (F.deserialize F.init (new_reader exceptions default_options input)) r
  unfolding try_deserialize
  try_deserialize-Reports input safe small =
      expected_of_lem (new_reader exceptions default_options input) _
        (safe F.init _ (record { in_bounds = omega arith; fits = small }))
