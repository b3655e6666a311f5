-- ===== src/Samples/Chat/Client/Calm.antt =====
-- samples/ChatClientConsole/main.cpp: what every step of the client keeps, and the steps that neither
-- read nor send a packet.
use memory_pack_cpp.Base.{
  ℕ, ◌+◌, ◌≤◌, ◌≡◌, refl, ap, Bool, true, false, List, [], ◌∷◌, ◌++◌, length, Option, none, some,
  arith, if◌then◌else◌, subst,
}
use memory_pack_cpp.Outcome.{
  Outcome, Action, pure, ◌>>=◌, ◌>>◌, Ensures, returns, throws, Ensures-bind, Ensures-if,
}
use memory_pack_cpp.Reader.{Reader, new_reader}
use memory_pack_cpp.Reader
use memory_pack_cpp.Samples.Chat.Packets.{LoginResponse}
use memory_pack_cpp.Samples.Chat.Client.{
  max_body_length, Line, logged_in, malformed, closed, disconnected, login_rejected, decode_failed,
  Phase, greeting, typing, stopped, stopping, ChatClient, print, set_running, decoded_of,
  if_decoded, show_login, leave, stop, next_line, joined, set_room,
}

abbrev ends : Line → ℕ
ends closed = 1
ends disconnected = 1
ends _ = 0

-- How often the end of the connection is in the output.
abbrev pub reported : List Line → ℕ
reported [] = 0
reported (line ∷ lines) = ends line + reported lines

reported-append :
    (xs : List Line) (line : Line) → reported (xs ++ (line ∷ [])) ≡ reported xs + ends line
reported-append [] line = omega arith
reported-append (x ∷ xs) line = omega (arith, reported-append xs line)

abbrev one_if : Bool → ℕ
one_if true = 1
one_if false = 0

abbrev to_report : Phase → ℕ
to_report (stopping was_running) = one_if was_running
to_report _ = 0

-- Behind the loop of main nothing runs, and behind Stop nothing receives.
abbrev Halted : Phase → Bool → Bool → Type 0
Halted (stopping b) running receiving = running ≡ false
Halted stopped running receiving = (running ≡ false) × (receiving ≡ false)
Halted _ running receiving = Unit {0}

-- The parser's position is inside its buffer and its limit is the client's. The report of the end is
-- made, or due to one of the threads, or neither.
pub record IsUp (c : ChatClient) : Type 0 where
  pub inside : c.parser.consumed ≤ length c.parser.buffer
  pub limit : c.parser.max_body_length ≡ max_body_length
  pub once : reported c.output + one_if c.running + to_report c.phase ≤ 1
  pub halted : Halted c.phase c.running c.receiving

-- The end of the connection is reported once at most, and once Stop is through, the client is not
-- running and its receive thread has left its loop.
abbrev pub ReportsOnce : ChatClient → Type 0
ReportsOnce c =
    (reported c.output ≤ 1) × (c.phase ≡ stopped → (c.running ≡ false) × (c.receiving ≡ false))

pub reports_once : (c : ChatClient) → IsUp c → ReportsOnce c
reports_once c up =
    (omega (arith, up.once), λ e. subst (λ p. Halted p c.running c.receiving) e up.halted)

-- A step that ends, by a return or an exception, and keeps the client up.
abbrev pub Calm : {A : Type 0} → Action ChatClient A → Type 0
Calm m = (c : ChatClient) → IsUp c → Ensures (λ _ c'. IsUp c') IsUp (m c)

pub Calm-bind :
    {A B : Type 0} (m : Action ChatClient A) (f : A → Action ChatClient B)
    → Calm m
    → ((a : A) → Calm (f a))
    → Calm (m >>= f)
Calm-bind m f h k c up = Ensures-bind (h c up) (λ a s q. k a s q)

pub Calm-then :
    {B : Type 0} (m : Action ChatClient (Unit {0})) (n : Action ChatClient B)
    → Calm m
    → Calm n
    → Calm (m >> n)
Calm-then m n h k c up = Ensures-bind (h c up) (λ a s q. k s q)

pub Calm-pure : {A : Type 0} (a : A) → Calm (pure a)
Calm-pure a c up = returns up

pub Calm-if :
    {A : Type 0} (b : Bool) (m n : Action ChatClient A)
    → Calm m
    → Calm n
    → Calm (if b then m else n)
Calm-if true m n h k = h
Calm-if false m n h k = k

pub print-Calm : (line : Line) → ends line ≡ 0 → Calm (print line)
unfolding print
print-Calm line none_yet c up = returns (record {
  inside = up.inside;
  limit = up.limit;
  once = omega (arith, up.once, reported-append c.output line);
  halted = up.halted;
})

Halted-idle :
    (phase : Phase) (running receiving : Bool)
    → Halted phase running receiving
    → Halted phase false receiving
Halted-idle greeting a b h = tt
Halted-idle typing a b h = tt
Halted-idle (stopping w) a b h = refl
Halted-idle stopped a b h = (refl, h.1)

Halted-left :
    (phase : Phase) (running receiving : Bool)
    → Halted phase running receiving
    → Halted phase false false
Halted-left greeting a b h = tt
Halted-left typing a b h = tt
Halted-left (stopping w) a b h = refl
Halted-left stopped a b h = (refl, refl)

set_running-Calm : Calm (set_running false)
unfolding set_running
set_running-Calm c up = returns (record {
  inside = up.inside;
  limit = up.limit;
  once = omega (arith, up.once);
  halted = Halted-idle c.phase c.running c.receiving up.halted;
})

pub set_room-Calm : (room : List ℕ) → Calm (set_room room)
unfolding set_room
set_room-Calm room c up =
    returns (record { inside = up.inside; limit = up.limit; once = up.once; halted = up.halted })

pub leave-Calm : Calm leave
unfolding leave print
leave-Calm c up =
    let halted = Halted-left c.phase c.running c.receiving up.halted in
    Ensures-if c.running
      (λ e. returns (record {
        inside = up.inside;
        limit = up.limit;
        once =
            let due : one_if c.running ≡ 1 = ap one_if e in
            omega (arith, up.once, reported-append c.output closed);
        halted = halted;
      }))
      (λ e. returns (record {
        inside = up.inside;
        limit = up.limit;
        once = omega (arith, up.once);
        halted = halted;
      }))

pub stop-Calm : Calm stop
unfolding stop
stop-Calm c up =
    returns (record {
      inside = up.inside;
      limit = up.limit;
      once = omega (arith, up.once);
      halted = refl;
    })

pub next_line-Calm : Calm next_line
unfolding next_line
next_line-Calm c up =
    Ensures-if c.running
      (λ e. returns (record {
        inside = up.inside;
        limit = up.limit;
        once = omega (arith, up.once);
        halted = tt;
      }))
      (λ _. stop-Calm c up)

-- The step behind the join of Stop.
pub joined-Ends :
    (was_running : Bool) (c : ChatClient)
    → IsUp c
    → c.phase ≡ stopping was_running
    → c.receiving ≡ false
    → Ensures (λ _ c'. IsUp c') IsUp (joined was_running c)
unfolding joined print
joined-Ends was_running c up at_stop idle =
    let due : to_report c.phase ≡ one_if was_running = ap to_report at_stop in
    let halted : (c.running ≡ false) × (c.receiving ≡ false) =
      (subst (λ p. Halted p c.running c.receiving) at_stop up.halted, idle) in
    Ensures-if was_running
      (λ e. returns (record {
        inside = up.inside;
        limit = up.limit;
        once =
            let one : one_if was_running ≡ 1 = ap one_if e in
            omega (arith, up.once, reported-append c.output disconnected);
        halted = halted;
      }))
      (λ e. returns (record {
        inside = up.inside;
        limit = up.limit;
        once = omega (arith, up.once);
        halted = halted;
      }))

pub decoded_of-Ends :
    {A : Type 0} {Q : A → Reader → Type 0} {T : Reader → Type 0} {o : Outcome Reader A}
    (c : ChatClient)
    → IsUp c
    → Ensures Q T o
    → Ensures (λ _ c'. IsUp c') IsUp (decoded_of o c)
decoded_of-Ends c up (returns {a} {s} q) =
    Calm-if (Reader.failed s) _ _
      (Calm-then (print (decode_failed s.error)) _ (print-Calm (decode_failed s.error) refl)
        (Calm-pure none))
      (Calm-pure (some a)) c up
decoded_of-Ends c up (throws t) =
    Calm-then (print malformed) _ (print-Calm malformed refl) (Calm-pure none) c up

pub if_decoded-Calm :
    {A : Type 0} (o : Option A) (f : A → Action ChatClient (Unit {0}))
    → ((a : A) → Calm (f a))
    → Calm (if_decoded o f)
if_decoded-Calm none f h = Calm-pure tt
if_decoded-Calm (some a) f h = h a

pub show_login-Calm : (packet : LoginResponse) → Calm (show_login packet)
show_login-Calm packet = Calm-if packet.success _ _ (print-Calm logged_in refl) (
    Calm-then (print (login_rejected packet.message)) _
      (print-Calm (login_rejected packet.message) refl) set_running-Calm)
