-- ===== src/Smtp/Faults.antt =====
-- Where the C of src/smtp.c is undefined: a NULL `HeloDomain`, a name that overflows `hostname`, and a recipient that overflows its
-- buffer.
use madai.Base.{
  ◌<◌, ◌≤◌, ◌+◌, ◌≡◌, ◌⊎◌, arith, refl, false, Bytes, length, length-append, ltb, Bool-cases, inl,
  inr,
}
use madai.Types.{Fd, Addr, ConfigData}
use madai.Sys.{Env, State, fault}
use madai.Sys.Ends.{Ends}
use madai.Sys.Wire.{Delivers}
use madai.Smtp.{send_rcpt, rcpt_line, crlf}
use madai.Smtp.Compose.{Sound}
use madai.Smtp.Commands.{Configured, send_rcpt-Delivers}

module _ (env : Env) (sound : Sound env) {p : Addr} {fd : Fd} {cfg : ConfigData} (s : State)
    (has : Configured s.mem p fd cfg) where
  -- Over a kernel that keeps the laws of write(2) and with rounds enough, in a session with a
  -- configuration: `send_rcpt` is undefined where the recipient and the 10 bytes around it leave no
  -- room for a NUL in the buffer of 1024 bytes, and else it ends, and sends the recipient in its
  -- command or returns -1 after a part of that.
  pub send_rcpt-outcomes :
      (rcpt : Bytes)
      → ((1024 ≤ length rcpt + 10) × (send_rcpt env p rcpt s ≡ fault))
        ⊎ ((length rcpt + 10 < 1024)
            × Ends (Delivers fd (rcpt_line rcpt) s) (send_rcpt env p rcpt s))
  unfolding send_rcpt
  send_rcpt-outcomes rcpt = elim (Bool-cases (ltb (length rcpt + 10) 1024)) [
    | inl fits ↦
        let room : length rcpt + 10 < 1024 = ground arith in
        inr (room, send_rcpt-Delivers env sound has rcpt room)
    | inr long ↦
        let much : 1024 ≤ length rcpt + 10 = ground arith in
        let over : ltb (length (rcpt_line rcpt)) 1024 ≡ false =
          ground (arith, length-append rcpt crlf) in
        inl (much, rw (has.live, has.points, has.allocated, has.holds, over) refl)
  ]
