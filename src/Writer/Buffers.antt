-- ===== src/Writer/Buffers.antt =====
-- include/memorypack/core.hpp, MemoryPackWriter: storing into a buffer, and growing the owned one.
use memory_pack_cpp.Base.{
  ℕ, zero, suc, ◌+◌, ◌-◌, ◌*◌, ◌%◌, ◌≤◌, ◌<◌, ◌^◌, ◌≡◌, ◌∙◌, refl, ap, List, [], ◌∷◌, ◌++◌, length,
  take, drop, replicate, some, arith, append_assoc, length-append, length-take, length-drop,
  length-replicate, take-append, le→leb, le→ltb, lt→ltb,
}
use native.Mathlib.Nat.{pow-suc}
use native.Mathlib.Decide.{dec_lt}
use memory_pack_cpp.Writer.{store, resize, double_until}

abbrev pub stored : List ℕ → ℕ → List ℕ → List ℕ
stored buffer pos src = take pos buffer ++ (src ++ drop (pos + length src) buffer)

module _ (buffer : List ℕ) (pos : ℕ) (src : List ℕ) (fits : pos + length src ≤ length buffer) where
  pub store-some : store buffer pos src ≡ some (stored buffer pos src)
  store-some = rw (le→leb (pos + length src) (length buffer) fits)

  pub length-stored : length (stored buffer pos src) ≡ length buffer
  length-stored = omega (
    arith,
    length-append (take pos buffer) (src ++ drop (pos + length src) buffer),
    length-append src (drop (pos + length src) buffer),
    length-take pos buffer,
    length-drop (pos + length src) buffer,
  )

  pub take-stored : take (pos + length src) (stored buffer pos src) ≡ take pos buffer ++ src
  take-stored =
      let front : List ℕ = take pos buffer ++ src in
      let e : pos + length src ≡ length front =
        omega (arith, length-append (take pos buffer) src, length-take pos buffer) in
      rw (e, ← append_assoc) (take-append front (drop (length front) buffer))

pub take-append_le : (p : ℕ) (xs ys : List ℕ) → p ≤ length xs → take p (xs ++ ys) ≡ take p xs
take-append_le zero xs ys h = refl
take-append_le (suc p) [] ys h = absurd (omega arith)
take-append_le (suc p) (x ∷ xs) ys h =
    ap {B = List ℕ} (λ r. x ∷ r) (take-append_le p xs ys (omega arith))

pub take-take : (p n : ℕ) (xs : List ℕ) → p ≤ n → take p (take n xs) ≡ take p xs
take-take zero n xs h = refl
take-take (suc p) zero xs h = absurd (omega arith)
take-take (suc p) (suc n) [] h = refl
take-take (suc p) (suc n) (x ∷ xs) h = ap {B = List ℕ} (λ r. x ∷ r) (take-take p n xs (omega arith))

pub length-resize : (n : ℕ) (xs : List ℕ) → length (resize n xs) ≡ n
length-resize n xs = omega (
  arith,
  length-append (take n xs) (replicate (n - length xs) 0),
  length-take n xs,
  length-replicate {A = ℕ} (n - length xs) 0,
)

pub take-resize : (p n : ℕ) (xs : List ℕ) → p ≤ n → p ≤ length xs → take p (resize n xs) ≡ take p xs
take-resize p n xs h k =
    take-append_le p (take n xs) (replicate (n - length xs) 0) (omega (arith, length-take n xs))
    ∙ take-take p n xs h

double_until_more :
    (rounds next target : ℕ)
    → next < target
    → next * 2 < 2 ^ 64
    → double_until (suc rounds) next target ≡ double_until rounds (next * 2) target
unfolding double_until
double_until_more rounds next target more small =
    let e : next * 2 % 2 ^ 64 ≡ next * 2 = omega arith in
    rw (lt→ltb next target more) (ap (λ (m : ℕ). double_until rounds m target) e)

double_until_done :
    (rounds next target : ℕ) → target ≤ next → double_until (suc rounds) next target ≡ some next
unfolding double_until
double_until_done rounds next target h = rw (le→ltb next target h)

-- With a target that memory can hold the doubling ends within its rounds, and reaches it.
pub double_until-reaches :
    (rounds next target : ℕ)
    → 0 < next
    → target ≤ 2 ^ 62
    → target ≤ next * 2 ^ rounds
    → (n : ℕ) × (double_until (suc rounds) next target ≡ some n) × (target ≤ n)
double_until-reaches zero next target pos fits enough =
    (next, double_until_done 0 next target (omega arith), omega arith)
double_until-reaches (suc rounds) next target pos fits enough = elim (dec_lt next target) [
  | no done ↦ (next, double_until_done (suc rounds) next target (omega arith), omega arith)
  | yes more ↦
      let grown : target ≤ next * 2 * 2 ^ rounds =
        omega (arith, ap (λ (t : ℕ). next * t) (pow-suc 2 rounds)) in
      let (n, found, reaches) =
        double_until-reaches rounds (next * 2) target (omega arith) fits grown in
      (n, double_until_more (suc rounds) next target more (omega arith) ∙ found, reaches)
]
