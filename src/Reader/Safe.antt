-- ===== src/Reader/Safe.antt =====
-- include/memorypack/core.hpp, MemoryPackReader: what every read operation keeps, whatever the
-- input holds.
use memory_pack_cpp.Base.{
  ℕ, ◌+◌, ◌-◌, ◌%◌, ◌^◌, ◌≤◌, ◌≡◌, ◌≢◌, ◌∙◌, refl, sym, subst, Bool, true, false, List, length,
  take, drop, ltb, if◌then◌else◌, arith, ◌⊎◌, inl, inr, ltb→le, le→ltb,
}
use memory_pack_cpp.Outcome.{
  MemoryPackError, no_error, buffer_underflow, length_limit, trailing_bytes, Outcome, returned,
  pure, ◌>>=◌, ◌>>◌, after, first_error, first_error_sticky, first_error_records, Ensures-if,
  Ensures, returns, throws, Ensures-bind, Ensures-weaken,
}
use memory_pack_cpp.Reader.{
  Reader, Read, IsValid, is_end, remaining, failed, is_failed, fail, ensure_bytes, load, move,
  take_bytes, advance, seek, enter_object, leave_object, require_end, get_remaining, get_position,
}

-- The input, its limits and the build stay, the position stays in bounds, and a recorded error
-- is neither cleared nor replaced.
pub record Kept (r r' : Reader) : Type 0 where
  pub valid : IsValid r'
  pub same_bytes : r'.bytes ≡ r.bytes
  pub same_options : r'.options ≡ r.options
  pub same_build : r'.has_exceptions ≡ r.has_exceptions
  pub sticky : (r.error ≡ no_error) ⊎ (r'.error ≡ r.error)

-- An exception leaves an error recorded.
pub record Raised (r r' : Reader) : Type 0 where
  pub kept : Kept r r'
  pub recorded : r'.error ≢ no_error

pub Kept-refl : {r : Reader} → IsValid r → Kept r r
Kept-refl v = record {
  valid = v;
  same_bytes = refl;
  same_options = refl;
  same_build = refl;
  sticky = inr refl;
}

sticky_trans :
    {a b c : MemoryPackError}
    → (a ≡ no_error) ⊎ (b ≡ a)
    → (b ≡ no_error) ⊎ (c ≡ b)
    → (a ≡ no_error) ⊎ (c ≡ a)
sticky_trans (inl h) k = inl h
sticky_trans (inr h) (inl k) = inl (sym h ∙ k)
sticky_trans (inr h) (inr k) = inr (k ∙ h)

pub Kept-trans : {r s t : Reader} → Kept r s → Kept s t → Kept r t
Kept-trans {r} {s} {t} h k = record {
  valid = k.valid;
  same_bytes = k.same_bytes ∙ h.same_bytes;
  same_options = k.same_options ∙ h.same_options;
  same_build = k.same_build ∙ h.same_build;
  sticky = sticky_trans h.sticky k.sticky;
}

pub Raised-trans : {r s t : Reader} → Kept r s → Raised s t → Raised r t
Raised-trans h k = record { kept = Kept-trans h k.kept; recorded = k.recorded }

-- `m` never touches memory outside the input, and keeps what `Kept` says.
abbrev pub Safe : {A : Type 0} → Read A → Type 0
Safe m = (r : Reader) → IsValid r → Ensures (λ _ r'. Kept r r') (Raised r) (m r)

-- The same from the states after `r0` in which `P` holds.
abbrev pub SafeFrom : {A : Type 0} → Reader → Outcome Reader A → Type 0
SafeFrom r o = Ensures (λ _ r'. Kept r r') (Raised r) o

pub SafeFrom-bind :
    {A B : Type 0} (m : Read A) (f : A → Read B) (r : Reader)
    → SafeFrom r (m r)
    → ((a : A) (s : Reader) → Kept r s → SafeFrom s (f a s))
    → SafeFrom r (after (m r) f)
SafeFrom-bind m f r h k =
    Ensures-bind h
      λ a s q. Ensures-weaken (k a s q) (λ b t l. Kept-trans q l) (λ t l. Raised-trans q l)

pub SafeFrom-bind' :
    {A B : Type 0} {Q : A → Reader → Type 0} {r : Reader} {o : Outcome Reader A} {f : A → Read B}
    → Ensures (λ a s. Kept r s × Q a s) (Raised r) o
    → ((a : A) (s : Reader) → Kept r s × Q a s → SafeFrom s (f a s))
    → SafeFrom r (after o f)
SafeFrom-bind' h k =
    Ensures-bind h
      λ a s q. Ensures-weaken (k a s q) (λ b t l. Kept-trans q.0 l) (λ t l. Raised-trans q.0 l)

pub SafeFrom-after :
    {A : Type 0} {r s : Reader} {o : Outcome Reader A} → Kept r s → SafeFrom s o → SafeFrom r o
SafeFrom-after k h = Ensures-weaken h (λ a t l. Kept-trans k l) (λ t l. Raised-trans k l)

pub Safe-bind :
    {A B : Type 0} {m : Read A} {f : A → Read B} → Safe m → ((a : A) → Safe (f a)) → Safe (m >>= f)
Safe-bind {m = m} {f = f} h k r v = SafeFrom-bind m f r (h r v) (λ a s q. k a s q.valid)

pub Safe-pure : {A : Type 0} (a : A) → Safe (pure a)
Safe-pure a r v = returns (Kept-refl v)

pub Safe-if : {A : Type 0} (b : Bool) {m n : Read A} → Safe m → Safe n → Safe (if b then m else n)
Safe-if true h k = h
Safe-if false h k = k

pub SafeFrom-if :
    {A : Type 0} (b : Bool) (m n : Read A) {r s : Reader}
    → (b ≡ true → SafeFrom r (m s))
    → (b ≡ false → SafeFrom r (n s))
    → SafeFrom r ((if b then m else n) s)
SafeFrom-if true m n h k = h refl
SafeFrom-if false m n h k = k refl

pub remaining_lem : (r : Reader) → IsValid r → remaining r ≡ length r.bytes - r.pos
unfolding remaining
remaining_lem r v = omega arith

pub fail-Safe : (code : MemoryPackError) → code ≢ no_error → Safe (fail code)
unfolding fail
fail-Safe code h r v =
    Ensures-if r.has_exceptions
      (λ _. throws (record { kept = kept; recorded = first_error_records r.error code h }))
      (λ _. returns kept)
  where
    kept : Kept r (record r { error = first_error r.error code })
    kept = record {
      valid = record { in_bounds = v.in_bounds; fits = v.fits };
      same_bytes = refl;
      same_options = refl;
      same_build = refl;
      sticky = first_error_sticky r.error code;
    }

-- A failure that gives a default value.
pub fail_with-Safe :
    {A : Type 0} (code : MemoryPackError) (a : A) → code ≢ no_error → Safe (fail code >> pure a)
fail_with-Safe code a h r v = Safe-bind (fail-Safe code h) (λ _. Safe-pure a) r v

pub is_failed-Safe : Safe is_failed
unfolding is_failed
is_failed-Safe r v = returns (Kept-refl v)

pub get_remaining-Safe : Safe get_remaining
unfolding get_remaining
get_remaining-Safe r v = returns (Kept-refl v)

pub get_position-Safe : Safe get_position
unfolding get_position
get_position-Safe r v = returns (Kept-refl v)

-- What a passed bounds check of `n` bytes means: nothing has changed, no error is recorded, and
-- the bytes are there.
abbrev Passed : ℕ → Reader → Bool → Reader → Type 0
Passed n r enough r' = enough ≡ true → (r' ≡ r) × (failed r ≡ false) × (r.pos + n ≤ length r.bytes)

pub ensure_bytes_lem :
    (n : ℕ) (r : Reader)
    → IsValid r
    → Ensures (λ enough r'. Kept r r' × Passed n r enough r') (Raised r) (ensure_bytes n r)
unfolding ensure_bytes
ensure_bytes_lem n r v =
    Ensures-if (failed r) (λ _. returns (Kept-refl v, λ e. cc))
      (λ clean.
        Ensures-if (ltb (remaining r) n)
          (λ _.
            Ensures-bind (fail-Safe buffer_underflow (λ e. cc) r v) (λ a s q. returns (q, λ e. cc)))
          (λ e. returns (
            Kept-refl v,
            λ _. (refl, clean, omega (arith, remaining_lem r v, ltb→le _ _ e, v.in_bounds)),
          )))

pub Safe-guarded_clean :
    {A : Type 0} (n : ℕ) (k : Bool → Read A)
    → ((r : Reader)
        → IsValid r
        → failed r ≡ false
        → r.pos + n ≤ length r.bytes
        → SafeFrom r (k true r))
    → Safe (k false)
    → Safe (ensure_bytes n >>= k)
Safe-guarded_clean n k h l r v = SafeFrom-bind' (ensure_bytes_lem n r v) step
  where
    step : (enough : Bool) (s : Reader) → Kept r s × Passed n r enough s → SafeFrom s (k enough s)
    step true s q =
        let (e, c, b) = q.1 refl in subst (λ t. SafeFrom t (k true t)) (sym e) (h r v c b)
    step false s q = l s q.0.valid

pub Safe-guarded :
    {A : Type 0} (n : ℕ) (k : Bool → Read A)
    → ((r : Reader) → IsValid r → r.pos + n ≤ length r.bytes → SafeFrom r (k true r))
    → Safe (k false)
    → Safe (ensure_bytes n >>= k)
Safe-guarded n k h l = Safe-guarded_clean n k (λ r v c b. h r v b) l

pub ensure_bytes_passes :
    (n : ℕ) (r : Reader)
    → IsValid r
    → failed r ≡ false
    → r.pos + n ≤ length r.bytes
    → ensure_bytes n r ≡ returned true r
unfolding ensure_bytes
ensure_bytes_passes n r v clean bound =
    let none_missing : ltb (remaining r) n ≡ false =
      le→ltb _ _ (omega (arith, remaining_lem r v)) in
    rw (clean, none_missing)

pub load_lem :
    (n : ℕ) (r : Reader)
    → r.pos + n ≤ length r.bytes
    → load n r ≡ returned (take n (drop r.pos r.bytes)) r
unfolding load
load_lem n r h = ground arith

pub moved-Kept :
    (n : ℕ) (r : Reader)
    → IsValid r
    → r.pos + n ≤ length r.bytes
    → Kept r (record r { pos = r.pos + n })
moved-Kept n r v h = record {
  valid = record { in_bounds = h; fits = v.fits };
  same_bytes = refl;
  same_options = refl;
  same_build = refl;
  sticky = inr refl;
}

pub move-Safe :
    (n : ℕ) (r : Reader) → IsValid r → r.pos + n ≤ length r.bytes → SafeFrom r (move n r)
unfolding move
move-Safe n r v h = returns (moved-Kept n r v h)

-- Behind a passed check the bytes are read, and there are `n` of them.
pub take_bytes_lem :
    (n : ℕ) (r : Reader)
    → r.pos + n ≤ length r.bytes
    → take_bytes n r ≡ returned (take n (drop r.pos r.bytes)) (record r { pos = r.pos + n })
unfolding take_bytes
take_bytes_lem n r h = rw (load_lem n r h)

pub take_bytes-Safe :
    (n : ℕ) (r : Reader) → IsValid r → r.pos + n ≤ length r.bytes → SafeFrom r (take_bytes n r)
take_bytes-Safe n r v h = rw (take_bytes_lem n r h) (returns (moved-Kept n r v h))

pub taken-Safe :
    {A : Type 0} (n : ℕ) (f : List ℕ → Read A)
    → ((bs : List ℕ) → Safe (f bs))
    → (r : Reader) → IsValid r
    → r.pos + n ≤ length r.bytes
    → SafeFrom r ((take_bytes n >>= f) r)
taken-Safe n f k r v h =
    SafeFrom-bind (take_bytes n) f r (take_bytes-Safe n r v h) (λ bs s q. k bs s q.valid)

-- The shape of every bounds-checked read: test, then take `n` bytes, else a default.
pub checked-Safe :
    {A : Type 0} (n : ℕ) (f : List ℕ → Read A) (d : A)
    → ((bs : List ℕ) → Safe (f bs))
    → Safe (ensure_bytes n >>= λ enough. if enough then (take_bytes n >>= f) else pure d)
checked-Safe n f d k = Safe-guarded n _ (taken-Safe n f k) (Safe-pure d)

pub advance-Safe : (n : ℕ) → Safe (advance n)
unfolding advance
advance-Safe n = Safe-guarded n _ (move-Safe n) (Safe-pure tt)

pub seek-Safe : (position : ℕ) → Safe (seek position)
unfolding seek
seek-Safe position r v =
    Ensures-if (ltb (length r.bytes) position) (λ _. fail-Safe buffer_underflow (λ e. cc) r v)
      (λ e. returns (record {
        valid = record { in_bounds = ltb→le _ _ e; fits = v.fits };
        same_bytes = refl;
        same_options = refl;
        same_build = refl;
        sticky = inr refl;
      }))

depth-Kept : (d : ℕ) (r : Reader) → IsValid r → Kept r (record r { depth = d })
depth-Kept d r v = record {
  valid = record { in_bounds = v.in_bounds; fits = v.fits };
  same_bytes = refl;
  same_options = refl;
  same_build = refl;
  sticky = inr refl;
}

pub enter_object-Safe : Safe enter_object
unfolding enter_object
enter_object-Safe r v =
    let k = depth-Kept ((r.depth + 1) % 2 ^ 32) r v in
    Ensures-if (ltb r.options.max_depth ((r.depth + 1) % 2 ^ 32))
      (λ _.
        Ensures-weaken (fail_with-Safe length_limit false (λ e. cc) _ k.valid)
          (λ a s q. Kept-trans k q) (λ s t. Raised-trans k t))
      (λ _. returns k)

pub leave_object-Safe : Safe leave_object
unfolding leave_object
leave_object-Safe r v = returns (depth-Kept (r.depth - 1) r v)

pub require_end-Safe : Safe require_end
unfolding require_end
require_end-Safe r v =
    Ensures-if (is_end r) (λ _. returns (Kept-refl v))
      (λ _. fail_with-Safe trailing_bytes false (λ e. cc) r v)
