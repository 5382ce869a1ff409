-- ===== src/Server.antt =====
-- ServerSocket.cpp: the socket on which clients connect.
pub mod Opening
use nermalproxy.Prelude.{ℕ, Bool, true, false, not, Option, none, some, if◌then◌else◌}
use nermalproxy.CText.{Bytes}

pub record ServerSocket : Type 0 where
  pub is_active : Bool
  -- none for -1
  pub socket_fd : Option ℕ

abbrev pub new_server_socket : ServerSocket
new_server_socket = record { is_active = false; socket_fd = none }

-- `GetFd`, none for -1
unfoldable pub get_fd : ServerSocket → Option ℕ
get_fd s = if s.is_active then s.socket_fd else none

-- What the system answers to `Initialize`: the socket, and whether the other calls succeed.
pub record OpenAnswers : Type 0 where
  pub socket : Option ℕ
  pub sets_option : Bool
  pub binds : Bool
  pub listens : Bool

-- `Initialize`: the socket afterwards, and the result. The -1 that is returned when there is no
-- socket is converted to `true`.
unfoldable pub initialize : OpenAnswers → ServerSocket → ServerSocket × Bool
initialize a s = elim a.socket [
  | none ↦ (s, true)
  | some fd ↦
      if not a.sets_option
      then (s, false)
      else if not a.binds
      then (s, false)
      else if not a.listens
      then (s, false)
      else (record { is_active = true; socket_fd = some fd }, true)
]

-- `Accept`, with what `::accept` gives: a descriptor and the text of the client's address. None is
-- its -1.
unfoldable pub accept : ServerSocket → Option (ℕ × Bytes) → Option (ℕ × Bytes)
accept s answer = if s.is_active then answer else none

-- `OnError`
unfoldable pub on_error : ServerSocket → ServerSocket
on_error s = if s.is_active then record { is_active = false; socket_fd = none } else s
