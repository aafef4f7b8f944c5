-- ===== src/Milter/Receiver.antt =====
-- What the copy server makes of the text behind DATA, by the rule of RFC 5321: a line that is a dot
-- ends the text, and a dot that begins a longer line is left out.
use madai.Base.{
  ℕ, ℤ, ◌&&◌, Bool, true, false, Option, none, some, List, [], ◌∷◌, ◌++◌, ◌≡◌, refl, sym, ap, ◌∙◌,
  Bytes, ◌==◌, if◌then◌else◌,
}
use mathlib.Core.List.{append_assoc}
use madai.Types.{Addr, Fd, ConfigData, Sfsistat, accept, continue}
use madai.Sys.{Env, State}
use madai.Sys.Ends
use madai.Sys.Ends.{Ends, ends}
use madai.Sys.Wire.{sent, Outcome, whole, part}
use madai.Smtp.{eom_line}
use madai.Smtp.Compose.{Sound}
use madai.Smtp.Commands.{Configured}
use madai.Milter.{answer, Callback, eom}
use madai.Milter.Relay.{sends, sends_all, AllSendable, run_callbacks, run_callbacks-Relays}

-- Where the receiver stands in a line.
pub data Place : Type 0 where
  line_start within after_cr : Place

abbrev pub next_place : Place → ℕ → Place
next_place after_cr c = if c == b'\n' then line_start else if c == b'\r' then after_cr else within
next_place _ c = if c == b'\r' then after_cr else within

abbrev pub is_line_start : Place → Bool
is_line_start line_start = true
is_line_start _ = false

-- CRLF stands at the front.
abbrev ends_here : Bytes → Bool
ends_here [] = false
ends_here (c ∷ []) = false
ends_here (c ∷ (d ∷ s)) = c == b'\r' && d == b'\n'

abbrev put : ℕ → Option Bytes → Option Bytes
put c none = none
put c (some t) = some (c ∷ t)

-- The text that is received, or none if its end has not come.
abbrev pub receive : Place → Bytes → Option Bytes
receive place [] = none
receive place (c ∷ s) =
    let rest = receive (next_place place c) s in
    let unstuffed = receive within s in
    if is_line_start place && c == b'.'
    then if ends_here s then some [] else unstuffed
    else put c rest

-- The text has no line that begins with a dot, and ends with the end of a line.
abbrev pub IsPlain : Place → Bytes → Type 0
IsPlain place [] = place ≡ line_start
IsPlain place (c ∷ s) =
    ((is_line_start place && c == b'.') ≡ false) × IsPlain (next_place place c) s

receive-plain :
    (place : Place) (t : Bytes) → IsPlain place t → receive place (t ++ eom_line) ≡ some t
receive-plain place [] plain = rw plain refl
receive-plain place (c ∷ t) (no_dot, plain) =
    rw no_dot (rw (receive-plain (next_place place c) t plain) refl)

sends_all-append : (cs ds : List Callback) → sends_all (cs ++ ds) ≡ sends_all cs ++ sends_all ds
sends_all-append [] ds = refl
sends_all-append (c ∷ cs) ds =
    ap (λ w. sends c ++ w) (sends_all-append cs ds)
    ∙ sym (append_assoc (sends c) (sends_all cs) (sends_all ds))

-- Where the last answer is SMFIS_CONTINUE, the receiver has read `text` from what was sent.
abbrev pub Received : Fd → Bytes → State → Sfsistat → State → Type 0
Received fd text s accept t = Unit {0}
Received fd text s continue t =
    (wire : Bytes) × (sent fd t.trace ≡ sent fd s.trace ++ wire)
    × (receive line_start wire ≡ some text)

answer-Received :
    (fd : Fd) (cs : List Callback) (s : State) (stat : Sfsistat) (t : State) (code : ℤ)
    → IsPlain line_start (sends_all cs)
    → stat ≡ answer code
    → Outcome (sends_all (cs ++ (eom ∷ []))) (sent fd s.trace) (sent fd t.trace) code
    → Received fd (sends_all cs) s stat t
answer-Received fd cs s stat t code plain e (part now later z y x) = rw (e, z) tt
answer-Received fd cs s stat t code plain e (whole z x) =
    let all = sends_all-append cs (eom ∷ []) in
    let wire = x ∙ ap (λ w. sent fd s.trace ++ w) all in
    rw (e, z) (sends_all cs ++ eom_line, wire, receive-plain line_start (sends_all cs) plain)

-- Over a kernel that keeps the laws of write(2) and with rounds enough, in a session that is
-- connected, and for callbacks behind DATA whose texts fit, and the byte behind the copy of each
-- body chunk is no one's: where no line of what they send begins with a dot and the last line is
-- whole, the callbacks and `mdfi_eom` end without a fault, and if the last answer is
-- SMFIS_CONTINUE a receiver that keeps to RFC 5321 has read just what they sent.
pub run_callbacks-Received :
    (env : Env) (sound : Sound env) {ctx p : Addr} {fd : Fd} {cfg : ConfigData} (cs : List Callback)
    (s : State)
    → AllSendable env (cs ++ (eom ∷ []))
    → IsPlain line_start (sends_all cs)
    → s.mem.privs ctx ≡ some p
    → Configured s.mem p fd cfg
    → Ends (Received fd (sends_all cs) s) (run_callbacks env ctx (cs ++ (eom ∷ [])) s)
run_callbacks-Received env sound {fd} cs s fits plain priv has =
    Ends.weaken (run_callbacks-Relays env sound (cs ++ (eom ∷ [])) s fits priv has)
      λ stat t d. answer-Received fd cs s stat t d.code plain d.stat_is d.delivers.outcome
