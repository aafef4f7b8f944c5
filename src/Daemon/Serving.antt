-- ===== src/Daemon/Serving.antt =====
-- How the memory of the daemon stands for its table of connections.
use madai.Base.{◌<◌, some, List, [], ◌≡◌, ◌∙◌, ◌⊎◌, refl, Option-cases, inl, inr}
use madai.Types.{Addr, Fd, ConfigData}
use madai.Sys.{Env, Memory, State}
use madai.Smtp.Commands.{Configured}
use madai.Config.Refs.{Counted, count, count-Counted}
use madai.Config.Valid.{IsValid}
use madai.Config.Reload.{Current}
use madai.Config.Load.{cfe}
use madai.Libdg.Reader.Valid.{SmallFile}
use madai.Daemon.Path.{SamePath}
use madai.Config.Threads.{Reach, Reach-IsCounted}
use madai.Config.Steps.{threads}
use madai.Config.Snapshot.{config_at}
use madai.Config.Snapshot.Holds.{held_config-Keeps, current_config-Keeps, Reach-grown}
use madai.Milter.Socket.{IsSocket}
use madai.Smtp.Start.{open_fds}
use madai.Daemon.Sockets.{count_fd, sockets_of}
use madai.Daemon.Table.{
  Link, link_of, priv_in, data_of, session_of, sets_of, IsDistinct, IsDistinct-grown,
  link_of-session, link_of-set,
}

-- The set of a connection holds the configuration that is noted for it.
abbrev pub Joined : Env → Memory → Link → Type 0
Joined env m l = (config_at m l.set ≡ some l.cfg) × (IsValid env l.cfg × IsSocket l.socket)

abbrev pub HasCurrent : Env → Memory → Type 0
HasCurrent env m =
    (q : Addr) × ((cfg : ConfigData) × ((m.cur_config ≡ some q)
        × ((config_at m q ≡ some cfg) × IsValid env cfg)))

-- The private data and the sessions are those of the table and no others, each set is held once for
-- each connection that has it, no set waits to be freed, the open descriptors are the sockets of
-- the connections, a valid configuration is current, and the file that a reload reads is small.
pub record Serving (env : Env) (ls : List Link) (s : State) : Type 0 where
  pub counted : Counted s.mem (sets_of ls) [] []
  pub distinct : IsDistinct s.mem.next ls
  pub privs : (c : Addr) → s.mem.privs c ≡ priv_in (link_of c ls)
  pub fds : (g : Fd) → count_fd g (open_fds s.trace) ≡ count_fd g (sockets_of ls)
  pub sessions : (x : Addr) → s.mem.sessions x ≡ session_of x ls
  pub joined : (c : Addr) (l : Link) → link_of c ls ≡ some l → Joined env s.mem l
  pub current : HasCurrent env s.mem
  pub small : SmallFile env (cfe env) s.mem.config_filepath

pub Current-HasCurrent :
    {env : Env} {m : Memory} {q : Addr} {cfg : ConfigData}
    → Current m q cfg
    → IsValid env cfg
    → HasCurrent env m
Current-HasCurrent {q} {cfg} c valid = (q, (cfg, (c.points, (rw c.allocated c.holds, valid))))

-- The session of a connection, as the callbacks find it.
pub Serving-Configured :
    {env : Env} {ls : List Link} {s : State} (c : Addr) (l : Link)
    → Serving env ls s
    → link_of c ls ≡ some l
    → (has : Configured s.mem l.session l.socket l.cfg) × (has.set_at ≡ l.set)
Serving-Configured {ls} {s} c l now e =
    let (holds, _) = now.joined c l e in
    elim (Option-cases (s.mem.sets l.set)) [
      | inl gone ↦ absurd (let at = rw gone at holds in cc)
      | inr (a, there) ↦ (
        record {
          session = data_of l;
          set_at = l.set;
          cfg_set = a;
          live = now.sessions l.session ∙ link_of-session l c s.mem.next ls now.distinct e;
          points = refl;
          allocated = there;
          holds = rw there at holds;
          on_socket = refl;
        },
        refl,
      )
    ]

pub Serving-priv :
    {env : Env} {ls : List Link} {s : State} (c : Addr) (l : Link)
    → Serving env ls s
    → link_of c ls ≡ some l
    → s.mem.privs c ≡ some l.session
Serving-priv c l now e = rw e at (now.privs c)

-- The sets go on by steps of the threads, and the rest is read off the new table.
pub Serving-next :
    {env : Env} (ls ms : List Link) (s t : State) (held : List Addr)
    → Serving env ls s
    → (IsDistinct s.mem.next ms ⊎ IsDistinct t.mem.next ms)
    → Reach (threads s (sets_of ls) [] []) (threads t held [] [])
    → ((q : Addr) → count q held ≡ count q (sets_of ms))
    → ((c : Addr) → t.mem.privs c ≡ priv_in (link_of c ms))
    → ((x : Addr) → t.mem.sessions x ≡ session_of x ms)
    → ((g : Fd) → count_fd g (open_fds t.trace) ≡ count_fd g (sockets_of ms))
    → ((c : Addr) (l : Link) → link_of c ms ≡ some l → Joined env s.mem l)
    → HasCurrent env t.mem
    → SamePath s t
    → Serving env ms t
Serving-next ls ms s t held now apart r same privs sessions fds joined current path = record {
  counted = count-Counted same (Reach-IsCounted r now.counted);
  distinct = elim apart [ inl d ↦ IsDistinct-grown ms (Reach-grown r now.counted) d | inr d ↦ d ];
  privs = privs;
  sessions = sessions;
  fds = fds;
  joined = λ c l e.
      let (holds, rest) = joined c l e in
      let one : 0 < count l.set held = rw (same l.set) (link_of-set l c ms e) in
      (held_config-Keeps r now.counted l.set l.cfg holds one, rest);
  current = current;
  small = rw path now.small;
}

-- The current set stays current.
pub still_current :
    {env : Env} {ls : List Link} {s t : State} {held : List Addr}
    → Serving env ls s
    → Reach (threads s (sets_of ls) [] []) (threads t held [] [])
    → t.mem.cur_config ≡ s.mem.cur_config
    → HasCurrent env t.mem
still_current now r same =
    let (q, (cfg, (cur, (holds, valid)))) = now.current in
    (q, (cfg, (same ∙ cur, (current_config-Keeps r now.counted q cfg holds (same ∙ cur), valid))))

pub Serving-same_mem :
    {env : Env} {ls : List Link} (s t : State)
    → t.mem ≡ s.mem
    → open_fds t.trace ≡ open_fds s.trace
    → Serving env ls s
    → Serving env ls t
Serving-same_mem s t m f now = record {
  counted = rw m now.counted;
  distinct = rw m now.distinct;
  privs = rw m now.privs;
  sessions = rw m now.sessions;
  fds = rw f now.fds;
  joined = rw m now.joined;
  current = rw m now.current;
  small = rw m now.small;
}
