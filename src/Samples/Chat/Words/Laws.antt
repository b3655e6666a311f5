-- ===== src/Samples/Chat/Words/Laws.antt =====
-- samples/ChatClientConsole/main.cpp: Trim leaves a text without blanks at its ends as it is.
use memory_pack_cpp.Base.{
  ℕ, suc, ◌-◌, ◌≡◌, ◌∙◌, refl, sym, ap, false, List, [], ◌∷◌, ◌++◌, length, take, drop, arith,
  take-length, length-append, drop-append, lt→ltb,
}
use memory_pack_cpp.Reader.Headers.{first_byte}
use memory_pack_cpp.Samples.Chat.Words.{is_blank, is_end_blank, trim_begin, trim_end, trim}
use memory_pack_cpp.Samples.Chat.Words.Trimmed.{IsClean}

pub last-found : (x : ℕ) (xs : List ℕ) → (cs : List ℕ) × ((c : ℕ) × (x ∷ xs ≡ cs ++ (c ∷ [])))
last-found x [] = ([], (x, refl))
last-found x (y ∷ ys) =
    let (cs, rest) = last-found y ys in (x ∷ cs, (rest.0, ap {B = List ℕ} (λ r. x ∷ r) rest.1))

last-append :
    (a : List ℕ) (y : ℕ) (ys cs : List ℕ) (c : ℕ)
    → a ++ (y ∷ ys) ≡ cs ++ (c ∷ [])
    → (ds : List ℕ) × (y ∷ ys ≡ ds ++ (c ∷ []))
last-append [] y ys cs c e = (cs, e)
last-append (x ∷ []) y ys [] c e = cc
last-append (x ∷ (z ∷ a)) y ys [] c e = cc
last-append (x ∷ a) y ys (d ∷ cs) c e = last-append a y ys cs c (ap {B = List ℕ} (λ r. drop 1 r) e)

-- What starts with no blank stays clean with a clean text behind it.
pub IsClean-append :
    (x : ℕ) (a : List ℕ) (y : ℕ) (ys : List ℕ)
    → is_blank x ≡ false
    → IsClean (y ∷ ys)
    → IsClean (x ∷ (a ++ (y ∷ ys)))
IsClean-append x a y ys h k = record {
  starts = λ c cs e. let head : x ≡ c = cc in rw (sym head) h;
  ends = λ cs c e. let (ds, same) = last-append (x ∷ a) y ys cs c e in k.ends ds c same;
}

trim_end-stays :
    (text : List ℕ) (end : ℕ)
    → is_end_blank (first_byte (drop end text)) ≡ false
    → trim_end text 0 (suc end) ≡ suc end
unfolding trim_end
trim_end-stays text end h = rw (trim_end, h, lt→ltb 0 (suc end) (omega arith)) refl

trim-from :
    (text : List ℕ) (begin end : ℕ)
    → trim_begin text ≡ begin
    → trim_end text begin (length text) ≡ end
    → trim text ≡ take (end - begin) (drop begin text)
unfolding trim
trim-from text begin end p q =
    ap (λ (b : ℕ). take (trim_end text b (length text) - b) (drop b text)) p
    ∙ ap (λ (e : ℕ). take (e - begin) (drop begin text)) q

trim_begin-stays : (x : ℕ) (xs : List ℕ) → is_blank x ≡ false → trim_begin (x ∷ xs) ≡ 0
unfolding trim_begin
trim_begin-stays x xs h = rw h refl

trim-nothing : trim [] ≡ []
unfolding trim trim_begin trim_end
trim-nothing = refl

-- `Trim` leaves a clean text as it is.
pub trim-IsClean : (text : List ℕ) → IsClean text → trim text ≡ text
unfolding trim
trim-IsClean [] h = trim-nothing
trim-IsClean (x ∷ xs) h =
    let (cs, (c, e)) = last-found x xs in
    let size : length (x ∷ xs) ≡ suc (length cs) =
      ap length e ∙ length-append cs (c ∷ []) ∙ omega arith in
    let last : first_byte (drop (length cs) (x ∷ xs)) ≡ c =
      ap (λ t. first_byte (drop (length cs) t)) e ∙ ap first_byte (drop-append cs (c ∷ [])) in
    let end : trim_end (x ∷ xs) 0 (length (x ∷ xs)) ≡ length (x ∷ xs) =
      ap (λ (n : ℕ). trim_end (x ∷ xs) 0 n) size
      ∙ trim_end-stays (x ∷ xs) (length cs) (rw last (h.ends cs c e))
      ∙ sym size in
    trim-from (x ∷ xs) 0 (length (x ∷ xs)) (trim_begin-stays x xs (h.starts x xs refl)) end
    ∙ (let whole : length (x ∷ xs) - 0 ≡ length (x ∷ xs) = omega arith in
        ap (λ (n : ℕ). take n (x ∷ xs)) whole)
    ∙ take-length (x ∷ xs)
