-- ===== src/Smtp/Write.antt =====
-- `write_msg`, over a kernel that cuts the writes up.
use mathlib.Core.List.{append-nil}
use madai.Base.{
  ℕ, zero, suc, ◌≤◌, ◌<◌, ◌^◌, ℤ, pos, negsuc, minus_one, pos_part, is_neg, to_int, to_int-small,
  lt→ltb, ◌-ℤ◌, eq_ℤ_refl, [], ◌∷◌, ◌≡◌, ◌≢◌, refl, sym, ap, ◌∙◌, arith, Bytes, length, take, drop,
  length-drop, take-append-drop, take_all, if◌then◌else◌,
}
use madai.Types.{Fd}
use madai.Sys.{Event, Env, State, pure}
use madai.Sys.Ends
use madai.Sys.Ends.{Ends, ends}
use madai.Sys.Wire.{sent, WriteLaws, Outcome-append, whole, part, Delivers}
use madai.Smtp.{write_loop, write_msg}

abbrev after_write : State → Fd → Bytes → ℤ → State
after_write s fd buf r = record s { trace = Event.wrote fd buf r ∷ s.trace }

-- What was taken now and what comes after it make up the buffer.
Delivers-drop :
    (fd : Fd) (buf : Bytes) (n : ℕ) (s t : State) {r : ℤ}
    → Delivers fd (drop n buf) (after_write s fd buf (pos n)) r t
    → Delivers fd buf s r t
Delivers-drop fd buf n s t d = record {
  same_mem = d.same_mem;
  outcome = rw take-append-drop at (
      Outcome-append (take n buf) (drop n buf) {before = sent fd s.trace} (rw (eq_ℤ_refl fd))
        d.outcome);
  others = λ g apart. d.others g apart ∙ (rw apart);
}

module _ (env : Env) (laws : WriteLaws env) where
  -- What `write_loop` does with the answer to one write.
  round-Delivers :
      (k : ℕ) (fd : Fd) (buf : Bytes) (s : State) (r : ℤ)
      → length buf < suc k
      → pos_part r ≤ length buf
      → r ≢ pos 0
      → ((n : ℕ) (t : State)
          → length (drop n buf) < k
          → Ends
              (Delivers fd (drop n buf) t)
              (write_loop env k fd (drop n buf) (pos (length (drop n buf))) t))
      → Ends (Delivers fd buf s) (
          (if is_neg r
              then pure minus_one
              else write_loop env k fd (drop (pos_part r) buf) (pos (length buf) -ℤ r))
            (after_write s fd buf r))
  round-Delivers k fd buf s (negsuc n) h b ne ih = ends (record {
    same_mem = refl;
    outcome = part [] buf refl refl (rw (eq_ℤ_refl fd));
    others = λ g apart. rw apart;
  })
  round-Delivers k fd buf s (pos n) h b ne ih =
      let m : ℕ = length (drop n buf) in
      let left : (pos (length buf) -ℤ pos n) ≡ pos m = ground (arith, length-drop n buf) in
      let some_taken : n ≢ 0 = λ e. ne (ap pos e) in
      let fits : m < k = omega (arith, length-drop n buf) in
      rw left (
        Ends.weaken (ih n (after_write s fd buf (pos n)) fits)
          (λ a t d. Delivers-drop fd buf n s t d))

  write_loop-Delivers :
      (k : ℕ) (fd : Fd) (buf : Bytes) (s : State)
      → length buf < k
      → Ends (Delivers fd buf s) (write_loop env k fd buf (pos (length buf)) s)
  unfolding write_loop
  write_loop-Delivers zero fd buf s h = absurd (omega arith)
  write_loop-Delivers (suc k) fd [] s h = ends (record {
    same_mem = refl;
    outcome = whole refl (sym (append-nil _));
    others = λ g apart. refl;
  })
  write_loop-Delivers (suc k) fd (c ∷ cs) s h =
      let whole_buf = take_all (length cs) cs (omega arith) in
      let buf = c ∷ cs in
      let r = env.write s.trace fd buf in
      let left = lt→ltb 0 (suc (length cs)) (omega arith) in
      rw (left, whole_buf)
        (round-Delivers k fd buf s r h (laws.bounded s.trace fd buf)
          (laws.progress s.trace fd buf (λ e. cc))
          (λ n t lt. write_loop-Delivers k fd (drop n buf) t lt))

  -- `write_msg` on a buffer of fewer than 2^31 bytes, where every write(2) takes between one byte
  -- and what it is offered or fails, and with more rounds than bytes: it ends; it returns 0 after
  -- the peer was sent the whole buffer, or -1 after it was sent a part; nothing is sent on any other
  -- descriptor, and no memory changes.
  pub write_msg-Delivers :
      (fd : Fd) (buf : Bytes) (s : State)
      → length buf < 2 ^ 31
      → length buf < env.rounds
      → Ends (Delivers fd buf s) (write_msg env fd buf (to_int (length buf)) s)
  unfolding write_msg
  write_msg-Delivers fd buf s small fuel =
      rw (to_int-small (length buf) small) (write_loop-Delivers env.rounds fd buf s fuel)
