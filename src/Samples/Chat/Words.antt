-- ===== src/Samples/Chat/Words.antt =====
-- samples/ChatClientConsole/main.cpp: Trim, StartsWith, and std::string::find of one character.
pub mod Trimmed
pub mod Laws
use memory_pack_cpp.Base.{
  ℕ, zero, suc, ◌+◌, ◌-◌, Bool, true, false, List, [], ◌∷◌, length, take, drop, ltb, ◌==◌, ◌&&◌,
  ◌||◌, if◌then◌else◌, Option, none, some,
}
use memory_pack_cpp.Reader.Headers.{first_byte}

-- ' ' and '\t', which Trim removes in front.
abbrev pub is_blank : ℕ → Bool
is_blank c = c == 0x20 || c == 0x09

-- ' ', '\t' and '\r', which it removes at the end.
abbrev pub is_end_blank : ℕ → Bool
is_end_blank c = c == 0x20 || c == 0x09 || c == 0x0D

-- while (begin < end && (text[begin] == ' ' || text[begin] == '\t')) ++begin;
unfoldable pub trim_begin : List ℕ → ℕ
trim_begin [] = 0
trim_begin (c ∷ cs) = let rest = trim_begin cs in if is_blank c then suc rest else 0

-- while (end > begin && (text[end - 1] == ' ' || ...)) --end;
unfoldable pub trim_end : List ℕ → ℕ → ℕ → ℕ
trim_end text begin zero = zero
trim_end text begin (suc end) =
    let rest = trim_end text begin end in
    if ltb begin (suc end) && is_end_blank (first_byte (drop end text)) then rest else suc end

-- std::string Trim(std::string_view text)
unfoldable pub trim : List ℕ → List ℕ
unfolding trim_begin trim_end
trim text =
    let begin = trim_begin text in
    let end = trim_end text begin (length text) in take (end - begin) (drop begin text)

-- bool StartsWith(const std::string& text, std::string_view prefix)
unfoldable pub starts_with : List ℕ → List ℕ → Bool
starts_with text [] = true
starts_with [] (p ∷ ps) = false
starts_with (c ∷ cs) (p ∷ ps) = c == p && starts_with cs ps

abbrev pub one_further : Option ℕ → Option ℕ
one_further none = none
one_further (some i) = some (suc i)

-- text.find(c); `none` is npos.
unfoldable pub find : List ℕ → ℕ → Option ℕ
find [] c = none
find (x ∷ xs) c = let rest = find xs c in if x == c then some 0 else one_further rest
