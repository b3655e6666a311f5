-- ===== src/Samples/Chat/Commands.antt =====
-- samples/ChatClientConsole/main.cpp, main: what a line of the console asks for.
pub mod Laws
use memory_pack_cpp.Base.{
  ℕ, suc, Bool, true, false, List, [], ◌∷◌, take, drop, ◌==◌, ◌&&◌, ◌||◌, if◌then◌else◌, Option,
  none, some,
}
use memory_pack_cpp.Samples.Chat.Words.{trim, starts_with, find}

abbrev pub is_empty : List ℕ → Bool
is_empty [] = true
is_empty (c ∷ cs) = false

abbrev pub same_text : List ℕ → List ℕ → Bool
same_text [] [] = true
same_text (c ∷ cs) (d ∷ ds) = c == d && same_text cs ds
same_text _ _ = false

-- What one round of the loop of main does.
pub data Command : Type 0 where
  nothing quit join_usage whisper_usage : Command
  join chat : List ℕ → Command
  whisper : List ℕ → List ℕ → Command

-- "/quit", "/join", "/join " and "/w "
abbrev pub quit_text : List ℕ
quit_text = 0x2F ∷ 0x71 ∷ 0x75 ∷ 0x69 ∷ 0x74 ∷ []

abbrev pub join_text : List ℕ
join_text = 0x2F ∷ 0x6A ∷ 0x6F ∷ 0x69 ∷ 0x6E ∷ []

abbrev pub join_prefix : List ℕ
join_prefix = 0x2F ∷ 0x6A ∷ 0x6F ∷ 0x69 ∷ 0x6E ∷ 0x20 ∷ []

abbrev pub whisper_prefix : List ℕ
whisper_prefix = 0x2F ∷ 0x77 ∷ 0x20 ∷ []

-- `target` is Trim(line.substr(5)).
abbrev pub join_command : List ℕ → Command
join_command target = if is_empty target then join_usage else join target

-- `rest` is Trim(line.substr(3)), `space` is rest.find(' ').
abbrev pub whisper_command : List ℕ → Option ℕ → Command
whisper_command rest none = whisper_usage
whisper_command rest (some space) =
    let message = trim (drop (suc space) rest) in
    if is_empty message then whisper_usage else whisper (take space rest) message

-- The tests of the loop, on the line that Trim gives.
unfoldable pub trimmed_command : List ℕ → Command
trimmed_command line =
    if is_empty line
    then nothing
    else if same_text line quit_text
    then quit
    else if same_text line join_text || starts_with line join_prefix
    then join_command (trim (drop 5 line))
    else if starts_with line whisper_prefix
    then (let rest = trim (drop 3 line) in whisper_command rest (find rest 0x20))
    else chat line

unfoldable pub command : List ℕ → Command
unfolding trimmed_command
command line = trimmed_command (trim line)
