-- ===== src/Samples/Chat/Commands/Laws.antt =====
-- samples/ChatClientConsole/main.cpp: what commands hold, and what a whisper is read from.
use memory_pack_cpp.Base.{
  ℕ, zero, suc, ◌≡◌, refl, inl, inr, Bool, true, false, List, [], ◌∷◌, ◌++◌, length, take, drop,
  All, ◌==◌, ◌||◌, if◌then◌else◌, Option, none, some, Bool-cases, arith, take-append, append_assoc,
}
use memory_pack_cpp.Samples.Chat.Words.{is_blank, one_further, trim, starts_with, find}
use memory_pack_cpp.Samples.Chat.Words.Trimmed.{IsClean, trim-IsTrimmed}
use memory_pack_cpp.Samples.Chat.Words.Laws.{trim-IsClean, IsClean-append}
use memory_pack_cpp.Samples.Chat.Commands.{
  Command, nothing, quit, join_usage, whisper_usage, join, chat, whisper, is_empty, same_text,
  quit_text, join_text, join_prefix, whisper_prefix, whisper_command, trimmed_command, command,
}

-- No character is ' '.
abbrev pub OneWord : List ℕ → Type 0
OneWord cs = All (λ c. (c == 0x20) ≡ false) cs

-- What a command that is sent may hold: texts that are not empty and have no blanks at their ends, and
-- a name without ' '.
abbrev pub IsSound : Command → Type 0
IsSound nothing = Unit {0}
IsSound quit = Unit {0}
IsSound join_usage = Unit {0}
IsSound whisper_usage = Unit {0}
IsSound (join room) = (is_empty room ≡ false) × IsClean room
IsSound (chat line) = (is_empty line ≡ false) × IsClean line
IsSound (whisper target message) =
    ((is_empty target ≡ false) × OneWord target) × ((is_empty message ≡ false) × IsClean message)

IsSound-if :
    (b : Bool) (c d : Command)
    → (b ≡ true → IsSound c)
    → (b ≡ false → IsSound d)
    → IsSound (if b then c else d)
IsSound-if true c d h k = h refl
IsSound-if false c d h k = k refl

trimmed : (text : List ℕ) → IsClean (trim text)
trimmed text = (trim-IsTrimmed text).clean

-- No character before the first ' ' is one.
find-OneWord : (text : List ℕ) (i : ℕ) → find text 0x20 ≡ some i → OneWord (take i text)
unfolding find
find-OneWord text zero e = tt
find-OneWord [] (suc i) e = tt
find-OneWord (x ∷ xs) (suc i) e = elim (Bool-cases (x == 0x20)) [
  | inl b ↦ let e' : some 0 ≡ some (suc i) = rw b at e in cc
  | inr b ↦
      let e' : one_further (find xs 0x20) ≡ some (suc i) = rw b at e in
      (b, find-OneWord xs i (below (find xs 0x20) i e'))
]
  where
    below : (o : Option ℕ) (i : ℕ) → one_further o ≡ some (suc i) → o ≡ some i
    below none i e = cc
    below (some j) i e = cc

no_space : (x : ℕ) → is_blank x ≡ false → (x == 0x20) ≡ false
no_space x h = ground arith

-- A text that starts with no blank has a character before the first ' '.
find-some_before :
    (text : List ℕ) (i : ℕ)
    → IsClean text
    → find text 0x20 ≡ some i
    → is_empty (take i text) ≡ false
unfolding find
find-some_before [] i clean e = cc
find-some_before (x ∷ xs) (suc i) clean e = refl
find-some_before (x ∷ xs) zero clean e =
    let e' : one_further (find xs 0x20) ≡ some 0 = rw (no_space x (clean.starts x xs refl)) at e in
    absurd (further (find xs 0x20) e')
  where
    further : (o : Option ℕ) → one_further o ≡ some 0 → ⊥
    further none e = cc
    further (some j) e = cc

whisper_command-IsSound :
    (rest : List ℕ) (o : Option ℕ)
    → IsClean rest
    → find rest 0x20 ≡ o
    → IsSound (whisper_command rest o)
whisper_command-IsSound rest none clean e = tt
whisper_command-IsSound rest (some i) clean e =
    let message = trim (drop (suc i) rest) in
    IsSound-if (is_empty message) whisper_usage (whisper (take i rest) message) (λ _. tt)
      (λ full. (
        (find-some_before rest i clean e, find-OneWord rest i e),
        (full, trimmed (drop (suc i) rest)),
      ))

trimmed_command-IsSound : (line : List ℕ) → IsClean line → IsSound (trimmed_command line)
unfolding trimmed_command
trimmed_command-IsSound line clean =
    IsSound-if (is_empty line) _ _ (λ _. tt)
      λ full.
        IsSound-if (same_text line quit_text) _ _ (λ _. tt)
          λ _.
            IsSound-if (same_text line join_text || starts_with line join_prefix) _ _
              (λ _.
                IsSound-if (is_empty (trim (drop 5 line))) _ _ (λ _. tt)
                  (λ some_room. (some_room, trimmed (drop 5 line))))
              λ _.
                IsSound-if (starts_with line whisper_prefix) _ _
                  (λ _. whisper_command-IsSound (trim (drop 3 line)) _ (trimmed (drop 3 line)) refl)
                  λ _. (full, clean)

-- Whatever line is typed, what it makes the client send is sound: a room to join and a message are
-- never empty and have no blanks at their ends, and the name that a whisper goes to is not empty and
-- has no ' ' in it.
pub command-IsSound : (line : List ℕ) → IsSound (command line)
unfolding command
command-IsSound line = trimmed_command-IsSound (trim line) (trimmed line)

find-behind :
    (word rest : List ℕ) → OneWord word → find (word ++ (0x20 ∷ rest)) 0x20 ≡ some (length word)
unfolding find
find-behind [] rest h = refl
find-behind (x ∷ xs) rest h = rw (h.0, find-behind xs rest h.1) refl

drop-behind : (word rest : List ℕ) (c : ℕ) → drop (suc (length word)) (word ++ (c ∷ rest)) ≡ rest
drop-behind [] rest c = refl
drop-behind (x ∷ xs) rest c = drop-behind xs rest c

-- "/w " and behind it any name without a blank in front and any ' ' in it, one ' ', and any message
-- that is not empty and has no blanks at its ends, is the whisper of the message to the name.
pub command-whisper :
    (x : ℕ) (name : List ℕ) (y : ℕ) (message : List ℕ)
    → is_blank x ≡ false
    → OneWord (x ∷ name)
    → IsClean (y ∷ message)
    → command (whisper_prefix ++ ((x ∷ name) ++ (0x20 ∷ (y ∷ message))))
      ≡ whisper (x ∷ name) (y ∷ message)
unfolding command trimmed_command starts_with
command-whisper x name y message h word clean =
    let rest : List ℕ = (x ∷ name) ++ (0x20 ∷ (y ∷ message)) in
    let grouped : (name ++ (0x20 ∷ [])) ++ (y ∷ message) ≡ name ++ (0x20 ∷ (y ∷ message)) =
      append_assoc name (0x20 ∷ []) (y ∷ message) in
    let rest_clean : IsClean rest =
      rw grouped at (IsClean-append x (name ++ (0x20 ∷ [])) y message h clean) in
    let line_clean : IsClean (whisper_prefix ++ rest) =
      IsClean-append 0x2F (0x77 ∷ 0x20 ∷ []) x _ refl rest_clean in
    rw
      (
        trim-IsClean (whisper_prefix ++ rest) line_clean,
        trim-IsClean rest rest_clean,
        find-behind (x ∷ name) (y ∷ message) word,
        drop-behind (x ∷ name) (y ∷ message) 0x20,
        trim-IsClean (y ∷ message) clean,
        take-append (x ∷ name) (0x20 ∷ (y ∷ message)),
      )
      refl
