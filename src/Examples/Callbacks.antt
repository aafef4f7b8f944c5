-- ===== src/Examples/Callbacks.antt =====
-- The theorems on the callbacks, at concrete inputs.
use madai.Base.{pos, minus_one, false, some, List, [], ◌∷◌, ◌++◌, ◌≡◌, refl, arith, codes}
use madai.Sys.Ends.{Ends}
use madai.Config.Refs.{Counted}
use madai.Milter.{
  mdfi_abort, mdfi_connect, mdfi_close, Callback, envrcpt, header, eoh, body, eom, data_command,
}
use madai.Config.Reload.{Current}
use madai.Milter.Abort.{Resets, mdfi_abort-Resets}
use madai.Milter.Connection.{Exchange, aborted, Finished, connection, connection-Finished}
use madai.Milter.Sockets.Closed.{connection-closes_sockets}
use madai.Smtp.Start.{open_fds}
use madai.Milter.Receiver.{line_start, receive, Received, run_callbacks-Received}
use madai.Milter.Opening.{Opened, mdfi_connect-Opened}
use madai.Milter.Sessions.{Closes, mdfi_close-Closes}
use madai.Milter.Relay.{AllSendable, run_callbacks, Relays, sends_all, run_callbacks-Relays}
use madai.Examples.{
  cfg, old_set, connected, first_world, first_world-IsCounted, mem_with, state_with, steady,
  steady-Sound,
}

abbrev mail : List Callback
mail =
    envrcpt (codes "<a@example.com>")
    ∷ data_command
    ∷ header (codes "Subject") (codes " one\n two")
    ∷ eoh
    ∷ body (codes "text\r\n")
    ∷ eom
    ∷ []

mail-AllSendable : AllSendable steady mail
mail-AllSendable = (omega arith, (tt, (omega arith, (tt, ((omega arith, refl), (tt, tt))))))

run_callbacks-Relays_example :
    Ends
      (Relays (pos 3) (sends_all mail) (state_with (pos 1) (pos 3)))
      (run_callbacks steady 7 mail (state_with (pos 1) (pos 3)))
run_callbacks-Relays_example =
    run_callbacks-Relays steady steady-Sound mail (state_with (pos 1) (pos 3)) mail-AllSendable refl
      (connected (pos 3))

mdfi_connect-Opened_example :
    Ends (Opened steady 7 [] [] [] first_world.state) (mdfi_connect steady 7 first_world.state)
mdfi_connect-Opened_example =
    mdfi_connect-Opened steady 7 first_world.state first_world-IsCounted (omega arith)

pub held_once : Counted (mem_with (pos 1) (pos 3)) (0 ∷ []) [] []
held_once = record {
  started = (0, refl);
  unused = λ q le. ground arith;
  status = λ q. ground arith;
}

mdfi_close-Closes_example :
    Ends
      (Closes steady 7 1 0 (pos 3) (0 ∷ []) [] [] (state_with (pos 1) (pos 3)))
      (mdfi_close steady 7 (state_with (pos 1) (pos 3)))
unfolding connected
mdfi_close-Closes_example =
    mdfi_close-Closes steady 7 1 (state_with (pos 1) (pos 3)) (connected (pos 3)) refl held_once
      (omega arith)

held_unconnected : Counted (mem_with (pos 1) minus_one) (0 ∷ []) [] []
held_unconnected = record {
  started = (0, refl);
  unused = λ q le. ground arith;
  status = λ q. ground arith;
}

mdfi_abort-Resets_example :
    Ends
      (Resets 7 1 cfg 0 (pos 3) (state_with (pos 1) (pos 3)))
      (mdfi_abort steady 7 (state_with (pos 1) (pos 3)))
unfolding connected
mdfi_abort-Resets_example =
    mdfi_abort-Resets steady 7 1 cfg (state_with (pos 1) (pos 3)) (connected (pos 3)) refl

-- A mail, one that is given up, and one more.
abbrev visit : List Exchange
visit = Exchange.mail mail ∷ aborted ∷ Exchange.mail mail ∷ []

cfg-Current : Current (mem_with (pos 0) minus_one) 0 cfg
cfg-Current = record {
  cfg_set = old_set (pos 0) false;
  points = refl;
  allocated = refl;
  holds = refl;
}

connection-Finished_example :
    Ends
      (λ _ t. Finished steady 8 cfg 0 (codes "example.com") visit [] [] [] first_world.state t)
      (connection steady 8 visit first_world.state)
connection-Finished_example =
    connection-Finished steady steady-Sound 8 cfg (codes "example.com") (codes "10.0.0.2") (λ e. cc)
      (omega arith) refl refl 0 visit first_world.state (mail-AllSendable, (mail-AllSendable, tt))
      refl cfg-Current first_world-IsCounted (omega arith)

connection-closes_sockets_example :
    Ends
      (λ _ t. open_fds t.trace ≡ open_fds first_world.state.trace)
      (connection steady 8 visit first_world.state)
connection-closes_sockets_example =
    connection-closes_sockets steady steady-Sound 8 cfg (codes "example.com") (codes "10.0.0.2")
      (λ e. cc) (omega arith) refl refl 0 visit first_world.state
      (mail-AllSendable, (mail-AllSendable, tt)) refl cfg-Current first_world-IsCounted
      (omega arith)

abbrev letter : List Callback
letter = header (codes "Subject") (codes " one\n two") ∷ eoh ∷ body (codes "a.b\r\n") ∷ []

run_callbacks-Received_example :
    Ends
      (Received (pos 3) (sends_all letter) (state_with (pos 1) (pos 3)))
      (run_callbacks steady 7 (letter ++ (eom ∷ [])) (state_with (pos 1) (pos 3)))
run_callbacks-Received_example =
    run_callbacks-Received steady steady-Sound letter (state_with (pos 1) (pos 3))
      (omega arith, (tt, ((omega arith, refl), (tt, tt)))) (ground arith) refl (connected (pos 3))

-- A body with a line that is a dot: the receiver takes what stands before it.
cut_short : receive line_start (codes "a\r\n.\r\nb\r\n.\r\n") ≡ some (codes "a\r\n")
cut_short = refl
