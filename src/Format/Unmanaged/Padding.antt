-- ===== src/Format/Unmanaged/Padding.antt =====
-- include/memorypack/core.hpp, MEMORYPACK_UNMANAGED_SCRUBBED: what stands between the members.
use memory_pack_cpp.Base.{
  ℕ, zero, suc, ◌+◌, ◌≤◌, ◌<◌, ◌≡◌, ◌∙◌, ◌⊎◌, inl, inr, refl, List, [], ◌∷◌, ◌++◌, length, drop,
  replicate, get_elem?, All, some, arith, length-replicate,
}
use memory_pack_cpp.Writer.Buffers.{stored, length-stored}
use memory_pack_cpp.Format.Unmanaged.{Placed, scrub, write_scrubbed}
use memory_pack_cpp.Outcome.{returned}
use memory_pack_cpp.Writer.{Writer, written}
use memory_pack_cpp.Writer.Appends.{IsValid, capacity, append_bytes-Writes}

-- The index is before the member's bytes or behind them.
abbrev pub Outside : ℕ → Placed → Type 0
Outside i m = (i < m.0) ⊎ (m.0 + length m.1 ≤ i)

get_elem?-behind :
    (src buffer : List ℕ) (i : ℕ)
    → length src ≤ i
    → length src ≤ length buffer
    → get_elem? (src ++ drop (length src) buffer) i ≡ get_elem? buffer i
get_elem?-behind [] buffer i after fits = refl
get_elem?-behind (s ∷ src) [] i after fits = absurd (omega arith)
get_elem?-behind (s ∷ src) (b ∷ buffer) zero after fits = absurd (omega arith)
get_elem?-behind (s ∷ src) (b ∷ buffer) (suc i) after fits =
    get_elem?-behind src buffer i (omega arith) (omega arith)

inward : (at i : ℕ) (src : List ℕ) → Outside (suc i) (suc at, src) → Outside i (at, src)
inward at i src (inl before) = inl (omega arith)
inward at i src (inr after) = inr (omega arith)

-- Storing the bytes of a member changes no other byte.
get_elem?-stored :
    (at : ℕ) (src buffer : List ℕ) (i : ℕ)
    → Outside i (at, src)
    → at + length src ≤ length buffer
    → get_elem? (stored buffer at src) i ≡ get_elem? buffer i
get_elem?-stored zero src buffer i (inl before) fits = absurd (omega arith)
get_elem?-stored zero src buffer i (inr after) fits =
    let e : 0 + length src ≡ length src = omega arith in
    rw e (get_elem?-behind src buffer i (omega arith) (omega arith))
get_elem?-stored (suc at) src [] i out fits = absurd (omega arith)
get_elem?-stored (suc at) src (b ∷ buffer) zero out fits = refl
get_elem?-stored (suc at) src (b ∷ buffer) (suc i) out fits =
    let e : suc at + length src ≡ suc (at + length src) = omega arith in
    rw e (get_elem?-stored at src buffer i (inward at i src out) (omega arith))

scrub_lem :
    (ms : List Placed) (buffer : List ℕ) (i : ℕ)
    → All (λ m. m.0 + length m.1 ≤ length buffer) ms
    → All (Outside i) ms
    → (length (scrub ms buffer) ≡ length buffer)
      × (get_elem? (scrub ms buffer) i ≡ get_elem? buffer i)
unfolding scrub
scrub_lem [] buffer i inside out = (refl, refl)
scrub_lem (m ∷ ms) buffer i inside out =
    let size = length-stored buffer m.0 m.1 inside.0 in
    let inside' : All (λ n. n.0 + length n.1 ≤ length (stored buffer m.0 m.1)) ms =
      rw size inside.1 in
    let (same_size, same) = scrub_lem ms (stored buffer m.0 m.1) i inside' out.1 in
    (same_size ∙ size, same ∙ get_elem?-stored m.0 m.1 buffer i out.0 inside.0)

get_elem?-zeros : (size i : ℕ) → i < size → get_elem? (replicate {A = ℕ} size 0) i ≡ some 0
get_elem?-zeros zero i h = absurd (omega arith)
get_elem?-zeros (suc size) zero h = refl
get_elem?-zeros (suc size) (suc i) h = get_elem?-zeros size i (omega arith)

zeros-padding :
    (size : ℕ) (ms : List Placed) (i : ℕ)
    → All (λ m. m.0 + length m.1 ≤ size) ms
    → All (Outside i) ms
    → i < size
    → (length (scrub ms (replicate size 0)) ≡ size)
      × (get_elem? (scrub ms (replicate size 0)) i ≡ some 0)
zeros-padding size ms i inside out h =
    let zeros : List ℕ = replicate size 0 in
    let e = length-replicate {A = ℕ} size 0 in
    let inside' : All (λ m. m.0 + length m.1 ≤ length zeros) ms = rw e inside in
    let (same_size, same) = scrub_lem ms zeros i inside' out in
    (same_size ∙ e, same ∙ get_elem?-zeros size i h)

-- The scrubbed formatter returns and appends as many bytes as the struct has, of which each that
-- belongs to no member is zero, whatever the padding of the value holds. The members lie inside the
-- struct, and the writer has room for it.
pub write_scrubbed-padding :
    (size : ℕ) (ms : List Placed) (i : ℕ) (w : Writer)
    → All (λ m. m.0 + length m.1 ≤ size) ms
    → All (Outside i) ms
    → i < size
    → IsValid w
    → length (written w) + size ≤ capacity w
    → (bytes : List ℕ) × (w' : Writer) × (write_scrubbed size ms w ≡ returned tt w')
      × (written w' ≡ written w ++ bytes)
      × (length bytes ≡ size)
      × (get_elem? bytes i ≡ some 0)
unfolding write_scrubbed
write_scrubbed-padding size ms i w inside out h valid room =
    let bytes : List ℕ = scrub ms (replicate size 0) in
    let (same_size, zero_byte) = zeros-padding size ms i inside out h in
    let (w', e, p) = append_bytes-Writes bytes w valid (omega (arith, same_size)) in
    (bytes, w', e, p.appended, same_size, zero_byte)
