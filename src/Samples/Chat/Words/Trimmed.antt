-- ===== src/Samples/Chat/Words/Trimmed.antt =====
-- samples/ChatClientConsole/main.cpp: what Trim leaves.
use memory_pack_cpp.Base.{
  ℕ, zero, suc, ◌+◌, ◌-◌, ◌≤◌, ◌<◌, ◌≡◌, ◌∙◌, refl, sym, ap, inl, inr, true, false, List, [], ◌∷◌,
  ◌++◌, length, take, drop, All, arith, Bool-cases, take-drop, drop-drop, length-append,
  length-take, length-drop, drop-append, append_assoc, lt→ltb, le→ltb,
}
use native.Mathlib.Decide.{dec_lt}
use memory_pack_cpp.Reader.Headers.{first_byte}
use memory_pack_cpp.Samples.Chat.Words.{is_blank, is_end_blank, trim_begin, trim_end, trim}

abbrev Blanks : List ℕ → Type 0
Blanks cs = All (λ c. is_blank c ≡ true) cs

abbrev EndBlanks : List ℕ → Type 0
EndBlanks cs = All (λ c. is_end_blank c ≡ true) cs

trim_begin-length : (text : List ℕ) → trim_begin text ≤ length text
unfolding trim_begin
trim_begin-length [] = omega arith
trim_begin-length (c ∷ cs) =
    let h = trim_begin-length cs in
    elim (Bool-cases (is_blank c)) [ inl e ↦ rw e (omega arith) | inr e ↦ rw e (omega arith) ]

trim_begin-Blanks : (text : List ℕ) → Blanks (take (trim_begin text) text)
unfolding trim_begin
trim_begin-Blanks [] = tt
trim_begin-Blanks (c ∷ cs) = elim (Bool-cases (is_blank c)) [
  | inl e ↦ rw e (e, trim_begin-Blanks cs)
  | inr e ↦ rw e tt
]

-- The scan from the front stops at a character that is no blank.
trim_begin-stops :
    (text rest : List ℕ) (c : ℕ) → drop (trim_begin text) text ≡ c ∷ rest → is_blank c ≡ false
unfolding trim_begin
trim_begin-stops [] rest c e = cc
trim_begin-stops (x ∷ xs) rest c e = elim (Bool-cases (is_blank x)) [
  | inl b ↦ trim_begin-stops xs rest c (rw b at e)
  | inr b ↦ let same : x ∷ xs ≡ c ∷ rest = rw b at e in let head : x ≡ c = cc in rw (sym head) b
]

-- Where the scan from the back ends: behind it all characters are blanks, and the one before it is
-- none.
record EndFound (text : List ℕ) (begin end found : ℕ) : Type 0 where
  above : begin ≤ found
  below : found ≤ end
  blanks : (i : ℕ) → found ≤ i → i < end → is_end_blank (first_byte (drop i text)) ≡ true
  stops : (k : ℕ) → suc k ≡ found → begin < found → is_end_blank (first_byte (drop k text)) ≡ false

trim_end-EndFound :
    (text : List ℕ) (begin end : ℕ)
    → begin ≤ end
    → EndFound text begin end (trim_end text begin end)
unfolding trim_end
trim_end-EndFound text begin zero le = record {
  above = le;
  below = omega arith;
  blanks = λ i h k. absurd (omega arith);
  stops = λ k e h. absurd (omega arith);
}
trim_end-EndFound text begin (suc end) le = elim (dec_lt begin (suc end)) [
  | no z ↦
      rw (trim_end, le→ltb begin (suc end) (omega arith))
        (record {
          above = le;
          below = omega arith;
          blanks = λ i h k. absurd (omega arith);
          stops = λ k e h. absurd (omega arith);
        })
  | yes p ↦ elim (Bool-cases (is_end_blank (first_byte (drop end text)))) [
    | inl b ↦
        let rest = trim_end-EndFound text begin end (omega arith) in
        rw (trim_end, lt→ltb begin (suc end) p, b)
          (record {
            above = rest.above;
            below = omega (arith, rest.below);
            blanks = λ i h k. elim (dec_lt i end) [
              | yes q ↦ rest.blanks i h q
              | no q ↦ let e : i ≡ end = omega arith in rw e b
            ];
            stops = rest.stops;
          })
    | inr b ↦
        rw (trim_end, lt→ltb begin (suc end) p, b)
          (record {
            above = le;
            below = omega arith;
            blanks = λ i h k. absurd (omega arith);
            stops = λ k e h. let same : k ≡ end = omega arith in rw same b;
          })
  ]
]

-- What holds of the character at each index holds of all.
EndBlanks-from_indices :
    (cs : List ℕ)
    → ((i : ℕ) → i < length cs → is_end_blank (first_byte (drop i cs)) ≡ true)
    → EndBlanks cs
EndBlanks-from_indices [] h = tt
EndBlanks-from_indices (c ∷ cs) h =
    (h 0 (omega arith), EndBlanks-from_indices cs (λ i k. h (suc i) (omega arith)))

-- No blank at either end.
pub record IsClean (text : List ℕ) : Type 0 where
  pub starts : (c : ℕ) (cs : List ℕ) → text ≡ c ∷ cs → is_blank c ≡ false
  pub ends : (cs : List ℕ) (c : ℕ) → text ≡ cs ++ (c ∷ []) → is_end_blank c ≡ false

-- How a trimmed line stands in the line.
pub record IsTrimmed (text result : List ℕ) : Type 0 where
  pub front : List ℕ
  pub back : List ℕ
  pub whole : text ≡ front ++ (result ++ back)
  pub front_blank : Blanks front
  pub back_blank : EndBlanks back
  pub clean : IsClean result

take-front :
    (n : ℕ) (cs : List ℕ) (c : ℕ) (rest : List ℕ)
    → take n rest ≡ c ∷ cs
    → (ds : List ℕ) × (rest ≡ c ∷ ds)
take-front zero cs c rest e = cc
take-front (suc n) cs c [] e = cc
take-front (suc n) cs c (x ∷ xs) e =
    (xs, let head : x ≡ c = cc in ap {B = List ℕ} (λ r. r ∷ xs) head)

first_byte-last :
    (front cs back : List ℕ) (c : ℕ)
    → first_byte (drop (length front + length cs) (front ++ ((cs ++ (c ∷ [])) ++ back))) ≡ c
first_byte-last front cs back c =
    rw
      (
        sym (drop-drop (length front) (length cs) (front ++ ((cs ++ (c ∷ [])) ++ back))),
        drop-append front ((cs ++ (c ∷ [])) ++ back),
        append_assoc cs (c ∷ []) back,
        drop-append cs (c ∷ back),
      )
      refl

-- `Trim` splits a line in three: blanks in front, what it returns, and blanks, which may be '\r', at
-- the end. What it returns neither starts with ' ' or '\t' nor ends with ' ', '\t' or '\r'.
pub trim-IsTrimmed : (text : List ℕ) → IsTrimmed text (trim text)
unfolding trim
trim-IsTrimmed text =
    let begin = trim_begin text in
    let end = trim_end text begin (length text) in
    let found = trim_end-EndFound text begin (length text) (trim_begin-length text) in
    let result : List ℕ = take (end - begin) (drop begin text) in
    let front_size : length (take begin text) ≡ begin =
      omega (arith, length-take begin text, trim_begin-length text) in
    let whole : take begin text ++ (result ++ drop end text) ≡ text =
      let joined : begin + (end - begin) ≡ end = omega (arith, found.above) in
      let behind : drop (end - begin) (drop begin text) ≡ drop end text =
        rw joined at (drop-drop begin (end - begin) text) in
      let tail : result ++ drop end text ≡ drop begin text =
        rw behind at (take-drop (end - begin) (drop begin text)) in
      ap (λ (u : List ℕ). take begin text ++ u) tail ∙ take-drop begin text in
    record {
      front = take begin text;
      back = drop end text;
      whole = sym whole;
      front_blank = trim_begin-Blanks text;
      back_blank = EndBlanks-from_indices (drop end text) (λ i h.
          let e = found.blanks (end + i) (omega arith) (omega (arith, length-drop end text)) in
          rw (sym (drop-drop end i text)) at e);
      clean = record {
        starts = λ c cs e.
            let (ds, same) = take-front (end - begin) cs c (drop begin text) e in
            trim_begin-stops text ds c same;
        ends = λ cs c e.
            let sizes : length result ≡ suc (length cs) =
              ap length e ∙ length-append cs (c ∷ []) ∙ omega arith in
            let size : end ≡ suc (begin + length cs) = omega (
              arith,
              sizes,
              length-take (end - begin) (drop begin text),
              length-drop begin text,
              found.below,
              found.above,
            ) in
            let last : first_byte (drop (begin + length cs) text) ≡ c =
              let parts : take begin text ++ ((cs ++ (c ∷ [])) ++ drop end text) ≡ text =
                rw e at whole in
              rw (front_size, parts) at (first_byte-last (take begin text) cs (drop end text) c) in
            rw last at (found.stops (begin + length cs) (sym size) (omega arith));
      };
    }
