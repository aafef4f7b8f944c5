-- ===== src/Examples/Sending.antt =====
-- The theorems on the send functions, at concrete inputs.
use madai.Base.{◌≤◌, pos, minus_one, ◌+◌, ◌<◌, ◌⊎◌, ◌≡◌, refl, arith, codes, length, to_int}
use madai.Sys.{State, fault}
use madai.Sys.Ends.{Ends}
use madai.Sys.Wire.{Delivers}
use madai.Smtp.{rcpt_line, write_msg, send_rcpt, send_header}
use madai.Smtp.Start.{Connects, start_smtp, start_smtp-Connects}
use madai.Smtp.Write.{write_msg-Delivers}
use madai.Smtp.Commands.{send_header-Delivers}
use madai.Smtp.Faults.{send_rcpt-outcomes}
use madai.Examples.{connected, state_with, steady, steady-Sound, steady-WriteLaws}

write_msg-Delivers_example :
    Ends (Delivers (pos 3) (codes "RCPT TO:<a@example.com>") (state_with (pos 1) (pos 3))) (
      write_msg steady
        (pos 3)
        (codes "RCPT TO:<a@example.com>")
        (to_int (length (codes "RCPT TO:<a@example.com>")))
        (state_with (pos 1) (pos 3)))
write_msg-Delivers_example =
    write_msg-Delivers steady steady-WriteLaws (pos 3) (codes "RCPT TO:<a@example.com>")
      (state_with (pos 1) (pos 3)) (omega arith) (omega arith)

send_header-Delivers_example :
    Ends
      (Delivers (pos 3) (codes "Subject: one\r\n two\r\n") (state_with (pos 1) (pos 3)))
      (send_header steady 1 (codes "Subject") (codes " one\n two") (state_with (pos 1) (pos 3)))
send_header-Delivers_example =
    send_header-Delivers steady steady-Sound (connected (pos 3)) (codes "Subject")
      (codes " one\n two") (omega arith) (omega arith)

start_smtp-Connects_example :
    Ends
      (Connects steady (state_with (pos 1) minus_one))
      (start_smtp steady 1 (state_with (pos 1) minus_one))
start_smtp-Connects_example =
    start_smtp-Connects steady (connected minus_one) (codes "10.0.0.2") refl refl

abbrev on_socket : State
on_socket = state_with (pos 1) (pos 3)

send_rcpt-outcomes_example :
    ((1024 ≤ length (codes "<a@example.com>") + 10)
      × (send_rcpt steady 1 (codes "<a@example.com>") (state_with (pos 1) (pos 3)) ≡ fault))
    ⊎ ((length (codes "<a@example.com>") + 10 < 1024)
        × Ends
            (Delivers (pos 3) (rcpt_line (codes "<a@example.com>")) (state_with (pos 1) (pos 3)))
            (send_rcpt steady 1 (codes "<a@example.com>") (state_with (pos 1) (pos 3))))
send_rcpt-outcomes_example =
    send_rcpt-outcomes steady steady-Sound (state_with (pos 1) (pos 3)) (connected (pos 3))
      (codes "<a@example.com>")
