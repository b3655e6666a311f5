-- ===== src/Packet/Stream.antt =====
-- include/memorypack/packet.hpp: the packets that a byte stream holds, independently of how the
-- stream is cut into calls of Feed.
use memory_pack_cpp.Base.{
  ℕ, zero, suc, ◌+◌, ◌-◌, ◌≤◌, ◌<◌, ◌≡◌, ◌∙◌, refl, ap, subst, Bool, true, false, List, [], ◌∷◌,
  ◌++◌, length, take, drop, ltb, ◌||◌, if◌then◌else◌, Option, none, some, arith, Bool-cases, inl,
  inr, length-append, length-drop, length-take, min, All, le→ltb, ltb→le,
}
use memory_pack_cpp.Reader.Headers.{is_negative}
use memory_pack_cpp.Packet.{header_size, PacketHeader, read_header, Packet}

-- What a stream starts with: too few bytes for a frame, a length that is not accepted, or a frame
-- and what follows it.
pub data Start : Type 0 where
  incomplete broken : Start
  frame : Packet → List ℕ → Start

unfoldable pub start_of : ℕ → List ℕ → Start
start_of max s =
    let len = (read_header s).body_length in
    if ltb (length s) header_size
    then incomplete
    else if is_negative len || ltb max len
    then broken
    else if ltb (length s) (header_size + len)
    then incomplete
    else frame ((read_header s).id, take len (drop header_size s)) (drop (header_size + len) s)

-- The packets at the front of a stream. `some rest` is what is left when a frame is incomplete,
-- `none` that the stream is broken.
pub data Frames (max : ℕ) : List ℕ → List Packet → Option (List ℕ) → Type 0 where
  stop : {s : List ℕ} → start_of max s ≡ incomplete → Frames max s [] (some s)
  break : {s : List ℕ} → start_of max s ≡ broken → Frames max s [] none
  next :
      {s r : List ℕ} {p : Packet} {ps : List Packet} {e : Option (List ℕ)}
      → start_of max s ≡ frame p r
      → Frames max r ps e
      → Frames max s (p ∷ ps) e

take-prefix : (n : ℕ) (s t : List ℕ) → n ≤ length s → take n (s ++ t) ≡ take n s
take-prefix zero s t h = refl
take-prefix (suc n) [] t h = absurd (omega arith)
take-prefix (suc n) (x ∷ s) t h = ap {B = List ℕ} (λ r. x ∷ r) (take-prefix n s t (omega arith))

pub drop-prefix : (n : ℕ) (s t : List ℕ) → n ≤ length s → drop n (s ++ t) ≡ drop n s ++ t
drop-prefix zero s t h = refl
drop-prefix (suc n) [] t h = absurd (omega arith)
drop-prefix (suc n) (x ∷ s) t h = drop-prefix n s t (omega arith)

-- A header does not depend on what follows it.
read_header-append : (s t : List ℕ) → header_size ≤ length s → read_header (s ++ t) ≡ read_header s
unfolding read_header
read_header-append s t h =
    let e : take 2 (s ++ t) ≡ take 2 s = take-prefix 2 s t (omega arith) in
    let d : drop 2 (s ++ t) ≡ drop 2 s ++ t = drop-prefix 2 s t (omega arith) in
    let f : take 4 (drop 2 s ++ t) ≡ take 4 (drop 2 s) =
      take-prefix 4 (drop 2 s) t (omega (arith, length-drop 2 s)) in
    rw (e, d, f)

abbrev pub body_length_of : List ℕ → ℕ
body_length_of s = (read_header s).body_length

abbrev pub rejects : ℕ → ℕ → Bool
rejects max len = is_negative len || ltb max len

abbrev FrameAt : ℕ → List ℕ → Packet → List ℕ → Type 0
FrameAt max s p r =
    (header_size + body_length_of s ≤ length s)
    × (rejects max (body_length_of s) ≡ false)
    × (p ≡ ((read_header s).id, take (body_length_of s) (drop header_size s)))
    × (r ≡ drop (header_size + body_length_of s) s)

start_of-frame_inv :
    (max : ℕ) (s r : List ℕ) (p : Packet) → start_of max s ≡ frame p r → FrameAt max s p r
unfolding start_of
start_of-frame_inv max s r p h = elim (Bool-cases (ltb (length s) header_size)) [
  | inl short ↦ cc (rw (short) at h)
  | inr long ↦ elim (Bool-cases (rejects max (body_length_of s))) [
    | inl bad ↦ cc (rw (long, bad) at h)
    | inr good ↦ elim (Bool-cases (ltb (length s) (header_size + body_length_of s))) [
      | inl short ↦ cc (rw (long, good, short) at h)
      | inr whole ↦
          let e : frame ((read_header s).id, take (body_length_of s) (drop header_size s))
                (drop (header_size + body_length_of s) s)
              ≡ frame p r =
            rw (long, good, whole) at h in
          (ltb→le _ _ whole, good, cc, cc)
    ]
  ]
]

start_of-broken_inv :
    (max : ℕ) (s : List ℕ)
    → start_of max s ≡ broken
    → (header_size ≤ length s) × (rejects max (body_length_of s) ≡ true)
unfolding start_of
start_of-broken_inv max s h = elim (Bool-cases (ltb (length s) header_size)) [
  | inl short ↦ cc (rw (short) at h)
  | inr long ↦ elim (Bool-cases (rejects max (body_length_of s))) [
    | inl bad ↦ (ltb→le _ _ long, bad)
    | inr good ↦ elim (Bool-cases (ltb (length s) (header_size + body_length_of s))) [
      | inl short ↦ cc (rw (long, good, short) at h)
      | inr whole ↦ cc (rw (long, good, whole) at h)
    ]
  ]
]

pub start_of-frame :
    (max : ℕ) (s : List ℕ)
    → header_size + body_length_of s ≤ length s
    → rejects max (body_length_of s) ≡ false
    → start_of max s
      ≡ frame
          ((read_header s).id, take (body_length_of s) (drop header_size s))
          (drop (header_size + body_length_of s) s)
unfolding start_of
start_of-frame max s whole good = rw (
  le→ltb (length s) header_size (omega arith),
  good,
  le→ltb (length s) (header_size + body_length_of s) whole,
)

start_of-broken :
    (max : ℕ) (s : List ℕ)
    → header_size ≤ length s
    → rejects max (body_length_of s) ≡ true
    → start_of max s ≡ broken
unfolding start_of
start_of-broken max s long bad = rw (le→ltb (length s) header_size long, bad)

-- More bytes do not change a frame that is there, nor mend a broken length.
start_of-append_frame :
    (max : ℕ) (s t r : List ℕ) (p : Packet)
    → start_of max s ≡ frame p r
    → start_of max (s ++ t) ≡ frame p (r ++ t)
start_of-append_frame max s t r p h =
    let (whole, good, ep, er) = start_of-frame_inv max s r p h in
    let e = read_header-append s t (omega arith) in
    let len = body_length_of s in
    let body : take len (drop header_size (s ++ t)) ≡ take len (drop header_size s) =
      rw (drop-prefix header_size s t (omega arith))
        (take-prefix len (drop header_size s) t (omega (arith, length-drop header_size s))) in
    let el = ap (λ (h : PacketHeader). h.body_length) e in
    let whole' : header_size + body_length_of (s ++ t) ≤ length (s ++ t) =
      omega (arith, el, length-append s t) in
    start_of-frame max (s ++ t) whole' (ap (rejects max) el ∙ good)
    ∙ rw (el, e, body, drop-prefix (header_size + len) s t whole, ep, er)

start_of-append_broken :
    (max : ℕ) (s t : List ℕ) → start_of max s ≡ broken → start_of max (s ++ t) ≡ broken
start_of-append_broken max s t h =
    let (long, bad) = start_of-broken_inv max s h in
    start_of-broken max (s ++ t) (omega (arith, length-append s t))
      (ap (λ (h : PacketHeader). rejects max h.body_length) (read_header-append s t long) ∙ bad)

-- The packets of a stream, then those of what is left with the next bytes behind it, are the
-- packets of the whole.
pub Frames-append :
    {max : ℕ} {s rest : List ℕ} {ps qs : List Packet} {e : Option (List ℕ)} (t : List ℕ)
    {o : Option (List ℕ)}
    → Frames max s ps o
    → o ≡ some rest
    → Frames max (rest ++ t) qs e
    → Frames max (s ++ t) (ps ++ qs) e
Frames-append {max = max} {rest = rest} {qs = qs} {e = e} t (stop {s} h) eq k =
    let same : rest ≡ s = cc in subst (λ u. Frames max (u ++ t) qs e) same k
Frames-append t (break h) eq k = cc
Frames-append {max} t (next {s = s} {r = r} {p = p} h f) eq k =
    next (start_of-append_frame max s t r p h) (Frames-append t f eq k)

-- A stream that breaks off at a bad length stays broken, with the same packets before it.
pub Frames-append_broken :
    {max : ℕ} {s : List ℕ} {ps : List Packet} (t : List ℕ) {o : Option (List ℕ)}
    → Frames max s ps o
    → o ≡ none
    → Frames max (s ++ t) ps none
Frames-append_broken t (stop h) eq = cc
Frames-append_broken {max} t (break {s = s} h) eq = break (start_of-append_broken max s t h)
Frames-append_broken {max} t (next {s = s} {r = r} {p = p} h f) eq =
    next (start_of-append_frame max s t r p h) (Frames-append_broken t f eq)

-- A stream holds its packets in one way only.
pub Frames-unique :
    {max : ℕ} {s t : List ℕ} {ps qs : List Packet} {e o : Option (List ℕ)}
    → Frames max s ps e
    → Frames max t qs o
    → s ≡ t
    → (ps ≡ qs) × (e ≡ o)
Frames-unique {max} (stop h) (stop k) eq = (refl, ap some eq)
Frames-unique {max} (stop h) (break k) eq = let f = ap (start_of max) eq in (cc, cc)
Frames-unique {max} (stop h) (next k g) eq = let f = ap (start_of max) eq in (cc, cc)
Frames-unique {max} (break h) (stop k) eq = let f = ap (start_of max) eq in (cc, cc)
Frames-unique {max} (break h) (break k) eq = (refl, refl)
Frames-unique {max} (break h) (next k g) eq = let f = ap (start_of max) eq in (cc, cc)
Frames-unique {max} (next h g) (stop k) eq = let f = ap (start_of max) eq in (cc, cc)
Frames-unique {max} (next h g) (break k) eq = let f = ap (start_of max) eq in (cc, cc)
Frames-unique {max} (next {r = r} {p = p} h g) (next {r = r'} {p = p'} k g') eq =
    let f = ap (start_of max) eq in
    let same : r ≡ r' = cc in let (eps, ee) = Frames-unique g g' same in (cc, ee)

start_of-incomplete_inv :
    (max : ℕ) (s : List ℕ) → start_of max s ≡ incomplete → length s < header_size + max
unfolding start_of
start_of-incomplete_inv max s h = elim (Bool-cases (ltb (length s) header_size)) [
  | inl short ↦ ground arith
  | inr long ↦ elim (Bool-cases (rejects max (body_length_of s))) [
    | inl bad ↦ cc (rw (long, bad) at h)
    | inr good ↦ elim (Bool-cases (ltb (length s) (header_size + body_length_of s))) [
      | inl short ↦ ground arith
      | inr whole ↦ cc (rw (long, good, whole) at h)
    ]
  ]
]

-- What is left of a stream is less than a frame of the largest accepted size.
pub Frames-rest_short :
    {max : ℕ} {s rest : List ℕ} {ps : List Packet} {o : Option (List ℕ)}
    → Frames max s ps o
    → o ≡ some rest
    → length rest < header_size + max
Frames-rest_short {max} {rest = rest} (stop {s} h) eq =
    let same : rest ≡ s = cc in rw same (start_of-incomplete_inv max s h)
Frames-rest_short (break h) eq = cc
Frames-rest_short (next h f) eq = Frames-rest_short f eq

accepted-short : (max len : ℕ) → rejects max len ≡ false → len ≤ max
accepted-short max len good = ground arith

-- The bytes of the frames that the packets stand in.
abbrev pub frames_size : List Packet → ℕ
frames_size [] = 0
frames_size (p ∷ ps) = header_size + length p.1 + frames_size ps

-- A stream holds the frames of its packets.
pub Frames-size :
    {max : ℕ} {s : List ℕ} {ps : List Packet} {e : Option (List ℕ)}
    → Frames max s ps e
    → frames_size ps ≤ length s
Frames-size (stop h) = omega arith
Frames-size (break h) = omega arith
Frames-size {max} (next {s} {r} {p} h f) =
    let (whole, good, ep, er) = start_of-frame_inv max s r p h in
    let len = body_length_of s in
    let size : length p.1 ≡ min len (length (drop header_size s)) =
      ap (λ (q : Packet). length q.1) ep ∙ length-take len (drop header_size s) in
    let left : length r ≡ length s - (header_size + len) =
      ap length er ∙ length-drop (header_size + len) s in
    omega (arith, Frames-size f, length-drop header_size s)

-- The packets of a stream have bodies that are not longer than the limit.
pub Frames-bodies :
    {max : ℕ} {s : List ℕ} {ps : List Packet} {e : Option (List ℕ)}
    → Frames max s ps e
    → All (λ p. length p.1 ≤ max) ps
Frames-bodies (stop h) = tt
Frames-bodies (break h) = tt
Frames-bodies {max} (next {s} {r} {p} h f) =
    let (whole, good, ep, er) = start_of-frame_inv max s r p h in
    let len = body_length_of s in
    let short : len ≤ max = accepted-short max len good in
    let e : length p.1 ≡ min len (length (drop header_size s)) =
      ap (λ (q : Packet). length q.1) ep ∙ length-take len (drop header_size s) in
    (omega arith, Frames-bodies f)
