-- ===== src/Reader/Reads.antt =====
-- include/memorypack/core.hpp, MemoryPackReader: what it means that a read consumes one encoding,
-- and how such reads compose.
use memory_pack_cpp.Base.{
  ℕ, ◌+◌, ◌≤◌, ◌<◌, ◌^◌, ◌≡◌, ◌∙◌, sym, ap, Bool, true, false, List, [], ◌++◌, length, drop, ltb,
  if◌then◌else◌, arith, length-append, length-drop, take-append, drop-append, drop-drop,
  append_assoc, le→ltb,
}
use memory_pack_cpp.Outcome.{
  MemoryPackError, is_error, no_error, returned, pure, ◌>>=◌, after_assoc,
}
use memory_pack_cpp.Reader.{
  Reader, Read, IsValid, remaining, is_failed, ensure_bytes, take_bytes, move,
}
use memory_pack_cpp.Reader.Safe.{remaining_lem, take_bytes_lem}

-- No error is recorded, the limits are too high to matter for an int32 length, and `levels` more
-- nested objects are allowed.
pub record Ready (levels : ℕ) (r : Reader) : Type 0 where
  pub valid : IsValid r
  pub clean : r.error ≡ no_error
  pub collections : 2 ^ 31 ≤ r.options.max_collection_length
  pub strings : 2 ^ 31 ≤ r.options.max_string_length
  pub levels_left : r.depth + levels ≤ r.options.max_depth
  pub depth_fits : r.options.max_depth < 2 ^ 32

abbrev pub advanced : ℕ → Reader → Reader
advanced n r = record r { pos = r.pos + n }

-- The unread input starts with `front`, and `rest` follows.
abbrev pub Ahead : Reader → List ℕ → List ℕ → Type 0
Ahead r front rest = drop r.pos r.bytes ≡ front ++ rest

-- `m` reads the bytes `wire` off the front of any input, gives `v` and leaves what follows.
abbrev pub Reads : {A : Type 0} → ℕ → Read A → List ℕ → A → Type 0
Reads levels m wire v =
    (r : Reader) (rest : List ℕ)
    → Ready levels r
    → Ahead r wire rest
    → m r ≡ returned v (advanced (length wire) r)

pub Ahead-bound :
    (r : Reader) (front rest : List ℕ)
    → IsValid r
    → Ahead r front rest
    → r.pos + length front ≤ length r.bytes
Ahead-bound r front rest v h =
    omega (arith, v.in_bounds, length-drop r.pos r.bytes, ap length h, length-append front rest)

pub Ahead-next :
    (r : Reader) (front rest : List ℕ)
    → Ahead r front rest
    → drop (r.pos + length front) r.bytes ≡ rest
Ahead-next r front rest h = rw (← drop-drop, h) (drop-append front rest)

pub Ready-advanced :
    {levels : ℕ} {r : Reader} (n : ℕ)
    → Ready levels r
    → r.pos + n ≤ length r.bytes
    → Ready levels (advanced n r)
Ready-advanced n h le = record {
  valid = record { in_bounds = le; fits = h.valid.fits };
  clean = h.clean;
  collections = h.collections;
  strings = h.strings;
  levels_left = h.levels_left;
  depth_fits = h.depth_fits;
}

pub advanced-advanced : (n m : ℕ) (r : Reader) → advanced m (advanced n r) ≡ advanced (n + m) r
advanced-advanced n m r = let e : r.pos + n + m ≡ r.pos + (n + m) = omega arith in rw e

-- Reads in sequence consume the encodings in sequence.
pub Reads-bind :
    {A B : Type 0} {levels : ℕ} (m : Read A) (f : A → Read B) (front back : List ℕ) {a : A} {b : B}
    → Reads levels m front a
    → Reads levels (f a) back b
    → Reads levels (m >>= f) (front ++ back) b
Reads-bind m f front back {b = b} h k r rest ready ahead =
    let ahead' : Ahead r front (back ++ rest) = ahead ∙ append_assoc front back rest in
    let bound = Ahead-bound r front (back ++ rest) ready.valid ahead' in
    rw (h r (back ++ rest) ready ahead') (
      rw
        (k (advanced (length front) r) rest (Ready-advanced (length front) ready bound)
          (Ahead-next r front (back ++ rest) ahead'))
        (rw (length-append front back)
          (ap (λ (s : Reader). returned b s) (advanced-advanced (length front) (length back) r))))

pub Reads-assoc :
    {A B C : Type 0} {levels : ℕ} (m : Read A) (f : A → Read B) (g : B → Read C) (wire : List ℕ)
    {c : C}
    → Reads levels (m >>= λ a. f a >>= g) wire c
    → Reads levels ((m >>= f) >>= g) wire c
Reads-assoc m f g wire h r rest ready ahead = after_assoc (m r) f g ∙ h r rest ready ahead

pub Reads-pure : {A : Type 0} {levels : ℕ} (a : A) → Reads levels (pure a) [] a
Reads-pure a r rest ready ahead =
    let e : r.pos ≡ r.pos + 0 = omega arith in λ i. returned a (record r { pos = e i })

-- A last step that only computes.
pub Reads-map :
    {A B : Type 0} {levels : ℕ} (m : Read A) (f : A → B) (wire : List ℕ) {a : A}
    → Reads levels m wire a
    → Reads levels (m >>= λ x. pure (f x)) wire (f a)
Reads-map m f wire h r rest ready ahead = rw (h r rest ready ahead)

is_failed-Ready : {levels : ℕ} (r : Reader) → Ready levels r → is_failed r ≡ returned false r
unfolding is_failed
is_failed-Ready r ready = ap (λ (e : MemoryPackError). returned (is_error e) r) ready.clean

pub is_failed-Reads :
    {A : Type 0} {levels : ℕ} (f : Bool → Read A) (wire : List ℕ) {a : A}
    → Reads levels (f false) wire a
    → Reads levels (is_failed >>= f) wire a
is_failed-Reads f wire h r rest ready ahead = rw (is_failed-Ready r ready) (h r rest ready ahead)

pub ensure_bytes-Ready :
    (n : ℕ) {levels : ℕ} (r : Reader) (front rest : List ℕ)
    → Ready levels r
    → Ahead r front rest
    → n ≤ length front
    → ensure_bytes n r ≡ returned true r
unfolding ensure_bytes
ensure_bytes-Ready n r front rest ready ahead h =
    let bound = Ahead-bound r front rest ready.valid ahead in
    let none_missing : ltb (remaining r) n ≡ false =
      le→ltb _ _ (omega (arith, remaining_lem r ready.valid)) in
    rw (ready.clean, none_missing)

pub checked-Reads :
    {A : Type 0} {levels : ℕ} (n : ℕ) (m d : Read A) (wire : List ℕ) {a : A}
    → n ≤ length wire
    → Reads levels m wire a
    → Reads levels (ensure_bytes n >>= λ enough. if enough then m else d) wire a
checked-Reads n m d wire le h r rest ready ahead =
    rw (ensure_bytes-Ready n r wire rest ready ahead le) (h r rest ready ahead)

pub take_bytes-Reads :
    {levels : ℕ} (n : ℕ) (wire : List ℕ) → length wire ≡ n → Reads levels (take_bytes n) wire wire
take_bytes-Reads n wire e r rest ready ahead =
    let bound = Ahead-bound r wire rest ready.valid ahead in
    rw (← e) (rw (take_bytes_lem (length wire) r bound, ahead, take-append wire rest))

pub move-Reads :
    {levels : ℕ} (n : ℕ) (wire : List ℕ) → length wire ≡ n → Reads levels (move n) wire tt
unfolding move
move-Reads n wire e r rest ready ahead =
    ap (λ (m : ℕ). returned tt (record r { pos = r.pos + m })) (sym e)
