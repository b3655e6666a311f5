-- ===== src/Writer/Appends/Branches.antt =====
-- include/memorypack/core.hpp, MemoryPackWriter: what an append leaves in each of the three buffers.
use memory_pack_cpp.Base.{
  ℕ, ◌+◌, ◌*◌, ◌%◌, ◌≤◌, ◌<◌, ◌^◌, ◌≡◌, ◌∙◌, refl, ap, Bool, true, false, List, ◌++◌, length, take,
  ◌==◌, if◌then◌else◌, Option, none, some, arith, length-take,
}
use memory_pack_cpp.Outcome.{MemoryPackError, Outcome, returned, pure, ◌>>◌}
use memory_pack_cpp.Writer.{
  Writer, written, resize, double_until, grow_owned, store_fixed, store_owned, double_until,
}
use memory_pack_cpp.Writer.Buffers.{
  stored, store-some, length-stored, take-stored, length-resize, take-resize, double_until-reaches,
}
use memory_pack_cpp.Writer.Appends.Room.{IsValid, Wrote}

abbrev next_size : List ℕ → ℕ
next_size own = if length own == 0 then 64 else length own * 2 % 2 ^ 64

grow_owned_to :
    (needed target n : ℕ) (w : Writer)
    → (w.owned_pos + needed) % 2 ^ 64 ≡ target
    → double_until 65 (next_size w.owned) target ≡ some n
    → grow_owned needed w ≡ returned tt (record w { owned = resize n w.owned })
unfolding grow_owned
grow_owned_to needed target n w e found =
    let at_target : double_until 65 (next_size w.owned) ((w.owned_pos + needed) % 2 ^ 64) ≡ some n =
      rw e found in
    rw (at_target, grow_owned)

-- The outcome of an append to a given buffer, by the fields of the writer.
module _ (src owned vector buffer : List ℕ) (owned_pos cap pos : ℕ) (error : MemoryPackError)
    (exceptions : Bool) where
  abbrev Appended : Outcome Writer (Unit {0}) → Writer → Type 0
  Appended o w = (w' : Writer) × (o ≡ returned tt w') × Wrote w src w'

  abbrev over_vector : Option (List ℕ) → Writer
  over_vector fixed = record {
    owned = owned;
    owned_pos = owned_pos;
    vec = some vector;
    fixed_buf = fixed;
    fixed_cap = cap;
    fixed_pos = pos;
    error = error;
    has_exceptions = exceptions;
  }

  abbrev over_fixed : Writer
  over_fixed = record {
    owned = owned;
    owned_pos = owned_pos;
    vec = none;
    fixed_buf = some buffer;
    fixed_cap = cap;
    fixed_pos = pos;
    error = error;
    has_exceptions = exceptions;
  }

  abbrev over_owned : List ℕ → Writer
  over_owned own = record {
    owned = own;
    owned_pos = owned_pos;
    vec = none;
    fixed_buf = none;
    fixed_cap = cap;
    fixed_pos = pos;
    error = error;
    has_exceptions = exceptions;
  }

  pub vector-Appended :
      (fixed : Option (List ℕ))
      → IsValid (over_vector fixed)
      → Wrote (over_vector fixed) src (record (over_vector fixed) { vec = some (vector ++ src) })
  unfolding written
  vector-Appended fixed v = record {
    valid = record { owned_fits = v.owned_fits; fixed_fits = v.fixed_fits };
    appended = refl;
    same_mode = refl;
    same_capacity = refl;
    same_error = refl;
    same_build = refl;
  }

  pub fixed-Appended :
      IsValid over_fixed
      → pos + length src ≤ cap
      → Appended (store_fixed src buffer over_fixed) over_fixed
  unfolding written store_fixed
  fixed-Appended v room =
      let fits : pos + length src ≤ length buffer = omega arith in
      (
        record over_fixed {
          fixed_buf = some (stored buffer pos src);
          fixed_pos = pos + length src;
        },
        rw (store-some buffer pos src fits, store_fixed),
        record {
          valid = record {
            owned_fits = v.owned_fits;
            fixed_fits = (length-stored buffer pos src fits ∙ v.fixed_fits.0, room);
          };
          appended = take-stored buffer pos src fits;
          same_mode = refl;
          same_capacity = refl;
          same_error = refl;
          same_build = refl;
        },
      )

  owned-Appended :
      (own : List ℕ)
      → owned_pos + length src ≤ length own
      → Appended (store_owned src (over_owned own)) (over_owned own)
  unfolding written store_owned
  owned-Appended own fits = (
    record (over_owned own) {
      owned = stored own owned_pos src;
      owned_pos = owned_pos + length src;
    },
    rw (store-some own owned_pos src fits, store_owned),
    record {
      valid = record {
        owned_fits = omega (arith, length-stored own owned_pos src fits);
        fixed_fits = tt;
      };
      appended = take-stored own owned_pos src fits;
      same_mode = refl;
      same_capacity = refl;
      same_error = refl;
      same_build = refl;
    },
  )

  -- Growing makes the room that was asked for and keeps what is written.
  grow_owned-Appended :
      (own : List ℕ)
      → owned_pos ≤ length own
      → length own < owned_pos + length src
      → owned_pos + length src ≤ 2 ^ 62
      → (own' : List ℕ) × (grow_owned (length src) (over_owned own) ≡ returned tt (over_owned own'))
        × (owned_pos + length src ≤ length own')
        × (take owned_pos own' ≡ take owned_pos own)
  grow_owned-Appended own inside short fits =
      let next = next_size own in
      let pos_next : 0 < next = ground arith in
      let e : (owned_pos + length src) % 2 ^ 64 ≡ owned_pos + length src = omega arith in
      let (n, found, reaches) =
        double_until-reaches 64 next (owned_pos + length src) pos_next fits (omega arith) in
      (
        resize n own,
        grow_owned_to (length src) (owned_pos + length src) n (over_owned own) e found,
        rw (length-resize n own) reaches,
        take-resize owned_pos n own (omega arith) inside,
      )

  owned-grown-Appended :
      (own : List ℕ)
      → owned_pos ≤ length own
      → length own < owned_pos + length src
      → owned_pos + length src ≤ 2 ^ 62
      → Appended ((grow_owned (length src) >> store_owned src) (over_owned own)) (over_owned own)
  unfolding written
  owned-grown-Appended own inside short fits =
      let (own', grown, room, same) = grow_owned-Appended own inside short fits in
      let (w', e, p) = owned-Appended own' room in
      (
        w',
        rw grown e,
        record {
          valid = p.valid;
          appended = p.appended ∙ ap (λ (front : List ℕ). front ++ src) same;
          same_mode = p.same_mode;
          same_capacity = p.same_capacity;
          same_error = p.same_error;
          same_build = p.same_build;
        },
      )

  pub owned-branch :
      (own : List ℕ) (b : Bool)
      → (b ≡ true → length own < owned_pos + length src)
      → (b ≡ false → owned_pos + length src ≤ length own)
      → owned_pos ≤ length own
      → owned_pos + length src ≤ 2 ^ 62
      → Appended
          (((if b then grow_owned (length src) else pure tt) >> store_owned src) (over_owned own))
          (over_owned own)
  owned-branch own true h k inside fits = owned-grown-Appended own inside (h refl) fits
  owned-branch own false h k inside fits = owned-Appended own (k refl)

pub written-owned : (owned : List ℕ) (pos : ℕ) → pos ≤ length owned → length (take pos owned) ≡ pos
written-owned owned pos h = omega (arith, length-take pos owned)
