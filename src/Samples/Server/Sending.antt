-- ===== src/Samples/Server/Sending.antt =====
-- samples/CppServer/main.cpp, Connection::SendAll. The operating system's `send` is a parameter: the
-- number of bytes that its k-th call takes of the n bytes that it is given, and 0 where it returns 0
-- or an error. The count n is an int, given by its bits.
use memory_pack_cpp.Base.{
  ℕ, zero, suc, ◌+◌, ◌%◌, ◌^◌, ◌≤◌, ◌<◌, ◌≡◌, ◌⊎◌, inl, inr, ◌∙◌, refl, sym, ap, Bool, true, false,
  List, [], ◌∷◌, ◌++◌, length, take, drop, ◌==◌, arith, Bool-cases, append_assoc, append-nil,
  length-drop, take-drop, take-add,
}

-- What the peer has been sent, and how often `send` was called.
pub record Socket : Type 0 where
  pub wire : List ℕ
  pub calls : ℕ

module _ (send : ℕ → ℕ → ℕ) where
  -- while (sent < length) { n = send(...); if (n <= 0) return false; sent += n; }, on the bytes that are
  -- not sent yet; the count given to `send` is static_cast<int>(length - sent). Each round that goes on
  -- sends a byte at least.
  unfoldable pub send_loop : ℕ → List ℕ → Socket → Bool × Socket
  send_loop zero bytes s = (false, s)
  send_loop (suc fuel) [] s = (true, s)
  send_loop (suc fuel) (b ∷ bs) s =
      let n = send s.calls (length (b ∷ bs) % 2 ^ 32) in
      elim (n == 0) [
        | true ↦ (false, record s { calls = suc s.calls })
        | false ↦
            send_loop fuel (drop n (b ∷ bs))
              (record { wire = s.wire ++ take n (b ∷ bs); calls = suc s.calls })
      ]

  -- bool SendAll(const uint8_t* data, size_t length)
  unfoldable pub send_all : List ℕ → Socket → Bool × Socket
  unfolding send_loop
  send_all bytes s = send_loop (suc (length bytes)) bytes s

  -- Given a count that is not negative, `send` never reports more bytes than that.
  abbrev pub SendsAtMost : Type 0
  SendsAtMost = (k n : ℕ) → n < 2 ^ 31 → send k n ≤ n

  -- Everything was sent, or a part that is not all.
  abbrev pub Sent : List ℕ → Socket → Bool × Socket → Type 0
  Sent bytes s r =
      ((r.0 ≡ true) × (r.1.wire ≡ s.wire ++ bytes))
      ⊎ ((r.0 ≡ false) × ((k : ℕ) × (k < length bytes) × (r.1.wire ≡ s.wire ++ take k bytes)))

  Sent-next :
      (n : ℕ) (bytes : List ℕ) (s : Socket) (r : Bool × Socket)
      → n ≤ length bytes
      → Sent (drop n bytes) (record { wire = s.wire ++ take n bytes; calls = suc s.calls }) r
      → Sent bytes s r
  Sent-next n bytes s r le (inl (ok, e)) = inl (
    ok,
    e
        ∙ append_assoc s.wire (take n bytes) (drop n bytes)
        ∙ ap (λ (u : List ℕ). s.wire ++ u) (take-drop n bytes),
  )
  Sent-next n bytes s r le (inr (bad, (k, less, e))) = inr (
    bad,
    (
      n + k,
      omega (arith, length-drop n bytes),
      e
          ∙ append_assoc s.wire (take n bytes) (take k (drop n bytes))
          ∙ ap (λ (u : List ℕ). s.wire ++ u) (take-add n k bytes),
    ),
  )

  send_loop-Sent :
      SendsAtMost
      → (fuel : ℕ) (bytes : List ℕ) (s : Socket) → length bytes < fuel
      → length bytes < 2 ^ 31
      → Sent bytes s (send_loop fuel bytes s)
  unfolding send_loop
  send_loop-Sent most zero bytes s h small = absurd (omega arith)
  send_loop-Sent most (suc fuel) [] s h small = inl (refl, sym (append-nil s.wire))
  send_loop-Sent most (suc fuel) (b ∷ bs) s h small =
      let count = length (b ∷ bs) % 2 ^ 32 in
      let exact : count ≡ length (b ∷ bs) = omega arith in
      let n = send s.calls count in
      elim (Bool-cases (n == 0)) [
        | inl stopped ↦
            rw (send_loop, stopped) (inr (refl, (0, omega arith, sym (append-nil s.wire))))
        | inr going ↦
            let some_bytes : 0 < n = ground arith in
            let at_most : n ≤ count = most s.calls count (omega arith) in
            let le : n ≤ length (b ∷ bs) = omega arith in
            let s' : Socket = record { wire = s.wire ++ take n (b ∷ bs); calls = suc s.calls } in
            rw (send_loop, going)
              (Sent-next n (b ∷ bs) s (send_loop fuel (drop n (b ∷ bs)) s') le (
                send_loop-Sent most fuel (drop n (b ∷ bs)) s'
                  (omega (arith, length-drop n (b ∷ bs))) (omega (arith, length-drop n (b ∷ bs)))))
      ]

  -- `SendAll` ends. It returns true when the socket has taken all of the bytes, in order, and false
  -- when it has taken only a part of them from the front. The system's `send` takes no more bytes
  -- than it is given, and there are fewer than 2^31, so that their count fits the int that `send` is
  -- given.
  pub send_all-Sent :
      SendsAtMost
      → (bytes : List ℕ) (s : Socket) → length bytes < 2 ^ 31
      → ((send_all bytes s).0 ≡ true) × ((send_all bytes s).1.wire ≡ s.wire ++ bytes)
        ⊎ (((send_all bytes s).0 ≡ false)
            × ((k : ℕ) × (k < length bytes) × ((send_all bytes s).1.wire ≡ s.wire ++ take k bytes)))
  unfolding send_all
  send_all-Sent most bytes s small =
      send_loop-Sent most (suc (length bytes)) bytes s (omega arith) small
