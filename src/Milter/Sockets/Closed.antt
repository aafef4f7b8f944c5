-- ===== src/Milter/Sockets/Closed.antt =====
-- The open descriptors after a whole connection.
use madai.Base.{
  ◌<◌, minus_one, is_neg, eq_ℤ, eq_ℤ_refl, false, none, some, List, [], ◌∷◌, ◌≡◌, ◌≢◌, refl, ap,
  ◌∙◌, sym, Bytes, length, arith, Bool-cases, inl, inr, if◌then◌else◌,
}
use mathlib.Core.Option.{some-injective}
use madai.Types.{Addr, Fd, ConfigData, Sfsistat}
use madai.Sys.{Event, Trace, Env, State, ◌>>◌}
use madai.Sys.Ends
use madai.Sys.Ends.{Ends, ends, Ends-with}
use madai.Smtp.{host_len}
use madai.Smtp.Compose.{Sound}
use madai.Smtp.Start.{open_fds, erase_fd}
use madai.Config.{int_max}
use madai.Config.Refs.{Counted, SameSets-Counted, count}
use madai.Config.Reload.{Current}
use madai.Milter.{mdfi_close}
use madai.Milter.Stays.{Stays, Stays-trans, set_of}
use madai.Milter.Socket.{held_by}
use madai.Milter.Mail.{mail-Copies}
use madai.Milter.Abort.{mdfi_abort-Resets}
use madai.Milter.Opening.{Opened, no_memory, lost, opened, mdfi_connect-Opened}
use madai.Milter.Sessions.{mdfi_close-Closes}
use madai.Milter.Connection.{
  Exchange, mail, aborted, exchanges, unless_refused, connection, AllExchanges, nothing_to_close,
  just_opened, Current-unique,
}
use madai.Milter.Sockets.{Sockets, mail-Sockets, abort-Sockets}

-- Each descriptor is one that the kernel gave.
abbrev AllGiven : List Fd → Type 0
AllGiven [] = Unit {0}
AllGiven (fd ∷ fds) = (is_neg fd ≡ false) × AllGiven fds

erase_fd-AllGiven : (fd : Fd) (fds : List Fd) → AllGiven fds → AllGiven (erase_fd fd fds)
erase_fd-AllGiven fd [] given = tt
erase_fd-AllGiven fd (g ∷ fds) (nonneg, given) = elim (Bool-cases (eq_ℤ fd g)) [
  | inl it ↦ rw it given
  | inr other ↦ rw other (nonneg, erase_fd-AllGiven fd fds given)
]

open_fds-AllGiven : (t : Trace) → AllGiven (open_fds t)
open_fds-AllGiven [] = tt
open_fds-AllGiven (Event.opened fd ∷ t) = elim (Bool-cases (is_neg fd)) [
  | inl failed ↦ rw failed (open_fds-AllGiven t)
  | inr nonneg ↦ rw nonneg (nonneg, open_fds-AllGiven t)
]
open_fds-AllGiven (Event.closed fd ∷ t) = erase_fd-AllGiven fd (open_fds t) (open_fds-AllGiven t)
open_fds-AllGiven (_ ∷ t) = open_fds-AllGiven t

erase_fd-none : (fds : List Fd) → AllGiven fds → erase_fd minus_one fds ≡ fds
erase_fd-none [] given = refl
erase_fd-none (fd ∷ fds) (nonneg, given) =
    let other : eq_ℤ minus_one fd ≡ false = ground arith in
    rw other (ap (λ gs. fd ∷ gs) (erase_fd-none fds given))

-- No open descriptor is -1.
pub open_fds-clean : (t : Trace) → erase_fd minus_one (open_fds t) ≡ open_fds t
open_fds-clean t = erase_fd-none (open_fds t) (open_fds-AllGiven t)

-- What the end of the connection closes.
closing :
    (fd : Fd) (base : List Fd)
    → (if eq_ℤ fd minus_one then held_by fd base else erase_fd fd (held_by fd base)) ≡ base
closing fd base = elim (Bool-cases (eq_ℤ fd minus_one)) [
  | inl unset ↦ rw unset refl
  | inr set ↦ rw (set, eq_ℤ_refl fd) refl
]

module _ (env : Env) (sound : Sound env) (ctx : Addr) (cfg : ConfigData) (name ip : Bytes)
    (ne : name ≢ []) (short : length name < host_len) (helo : cfg.helodomain ≡ some name)
    (addr : cfg.copyserverip ≡ some ip) where
  exchanges-Sockets :
      (p q : Addr) (base : List Fd) (xs : List Exchange) (s t : State)
      → erase_fd minus_one base ≡ base
      → AllExchanges env xs
      → Stays ctx p cfg q s.mem t.mem
      → Sockets base p t
      → Ends (λ _ u. Stays ctx p cfg q s.mem u.mem × Sockets base p u) (exchanges env ctx xs t)
  unfolding exchanges
  exchanges-Sockets p q base [] s t clean fits stays k = ends (stays, k)
  exchanges-Sockets p q base (mail cs ∷ xs) s t clean fits stays k =
      Ends.feed-Ends _
        (Ends-with
          (mail-Copies env sound ctx p cfg name ip cs t stays.fd ne short helo addr fits.0
            stays.priv stays.usable stays.session)
          (mail-Sockets env ctx p ip cs t addr fits.0 stays.priv stays.usable stays.session k))
        λ _ u (d, l).
          exchanges-Sockets p q base xs s u clean fits.1
            (Stays-trans q s.mem t.mem u.mem stays d.stays) l
  exchanges-Sockets p q base (aborted ∷ xs) s t clean fits stays k =
      Ends.feed-Ends _
        (Ends-with (mdfi_abort-Resets env ctx p cfg t stays.session stays.priv)
          (abort-Sockets env ctx p t clean stays.priv k))
        λ _ u (d, l).
          exchanges-Sockets p q base xs s u clean fits
            (Stays-trans q s.mem t.mem u.mem stays d.stays) l

  -- The descriptors after the end of a connection that was opened.
  closed_at_end :
      (p q : Addr) {held doomed fresh : List Addr} (base : List Fd) (s u : State)
      → Counted s.mem held doomed fresh
      → 0 < count q held
      → Stays ctx p cfg q s.mem u.mem
      → Sockets base p u
      → Ends (λ _ v. open_fds v.trace ≡ base) (mdfi_close env ctx u)
  closed_at_end p q base s u c one stays k =
      let has = stays.session in
      let at : has.set_at ≡ q = set_of q s.mem u.mem stays in
      let same : k.session ≡ has.session = some-injective _ _ (sym k.live ∙ has.live) in
      let only : open_fds u.trace ≡ held_by stays.fd base = rw (same, has.on_socket) at k.only in
      Ends.weaken
        (mdfi_close-Closes env ctx p u has stays.priv (SameSets-Counted stays.same c) (rw at one))
        λ _ v d. (rw only at d.closed) ∙ closing stays.fd base

  module _ {held doomed fresh : List Addr} where
    after_connect :
        (q : Addr) (xs : List Exchange) (s t : State) (stat : Sfsistat)
        → AllExchanges env xs
        → s.mem.privs ctx ≡ none
        → Current s.mem q cfg
        → Opened env ctx held doomed fresh s stat t
        → Ends
            (λ _ u. open_fds u.trace ≡ open_fds s.trace)
            ((do unless_refused env ctx xs stat; mdfi_close env ctx) t)
    after_connect q xs s t stat fits none_yet cur (no_memory m _ fds) =
        nothing_to_close env ctx t (rw m none_yet) λ u _ e. e ∙ fds
    after_connect q xs s t stat fits none_yet cur (lost r refused_at e at_r c privs _ fds) =
        nothing_to_close env ctx t (rw privs none_yet) λ u _ g. g ∙ fds
    after_connect q xs s t stat fits none_yet cur (opened has now c priv _ _ _ _ silent fds) =
        let p = s.mem.next in
        let base = open_fds s.trace in
        let (is_q, same) = Current-unique has.set_at q now cur in
        let holding : Counted t.mem (q ∷ held) doomed fresh = rw is_q at c in
        let once : 0 < count q (q ∷ held) = ground arith in
        let clean = erase_fd-none base (open_fds-AllGiven s.trace) in
        let only : open_fds t.trace ≡ held_by has.session.socket base = rw has.on_socket fds in
        Ends.feed-Ends _
          (exchanges-Sockets p q base xs t t clean fits (just_opened ctx p q t has is_q same priv)
            (record { session = has.session; live = has.live; only = only }))
          λ _ u (stays, k). closed_at_end p q base t u holding once stays k

    -- Over a kernel that keeps the laws of write(2) and with rounds enough, where the counts are
    -- right, fewer than 2^31 - 1 sets are held, the current configuration has a copy server and a
    -- `HeloDomain` that is not empty and fits `hostname`, no session is the private data of
    -- `ctx`, the texts of all callbacks fit, and the byte behind the copy of each body chunk is
    -- no one's: a whole connection ends, and the descriptors that are open after it are those
    -- that were open before it, whatever has failed on the way.
    pub connection-closes_sockets :
        (q : Addr) (xs : List Exchange) (s : State)
        → AllExchanges env xs
        → s.mem.privs ctx ≡ none
        → Current s.mem q cfg
        → Counted s.mem held doomed fresh
        → length held < int_max
        → Ends (λ _ t. open_fds t.trace ≡ open_fds s.trace) (connection env ctx xs s)
    unfolding connection
    connection-closes_sockets q xs s fits none_yet cur c few =
        Ends.feed-Ends _ (mdfi_connect-Opened env ctx s c few)
          λ stat t o. after_connect q xs s t stat fits none_yet cur o
