-- ===== src/System/Starting.antt =====
-- main.cpp: the objects that `main` creates before it enters the loop.
use nermalproxy.Prelude.{ℕ, Bool, false, not, [], Option, none, some, if◌then◌else◌}
use nermalproxy.Gate.{Proxy}
use nermalproxy.Loop.{server, command, Loop, initialize, add_socket}
use nermalproxy.Pool.{new_thread_pool}
use nermalproxy.Server
use nermalproxy.Server.{OpenAnswers, new_server_socket}

-- The constructor of `SocketManager`, with the singletons beside it.
abbrev pub new_loop : ℕ → Proxy → Loop
new_loop command_fd p = record {
  is_active = false;
  epoll_fd = none;
  sockets = [];
  command_fd = command_fd;
  proxy = p;
  messages = [];
  pool = new_thread_pool;
}

-- `main` up to its loop, after the configuration was read; `none` for its return of -1. The
-- results of `AddSocket` are ignored.
unfoldable pub start_proxy : Option ℕ → OpenAnswers → Bool → Bool → ℕ → Proxy → Option Loop
start_proxy epoll opens takes_server takes_command command_fd p =
    let (l, ok) = initialize epoll (new_loop command_fd p) in
    let (s, opened) = Server.initialize opens new_server_socket in
    if not ok
    then none
    else if not opened
    then none
    else some (record l {
      sockets =
          (add_socket takes_command command (add_socket takes_server (server s) l.sockets).0).0;
    })
