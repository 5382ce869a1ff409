-- ===== src/Messenger.antt =====
-- AsyncMessenger.hpp and AsyncMessenger.cpp: the messages of the workers, and the pipe that takes
-- their bytes to the event loop; CommandSocket.cpp, which hands out its descriptor.
pub mod Layout
pub mod Queue
use nermalproxy.Prelude.{
  take, drop, ℕ, zero, suc, ◌+◌, ◌-◌, ◌*◌, ◌/◌, ◌%◌, ◌^◌, Bool, true, false, not, List, [], ◌∷◌,
  ◌++◌, Option, none, some, ◌==◌, if◌then◌else◌, length,
}
use nermalproxy.CText.{Bytes}

-- A message, by the member of the union that it uses. An `int` is its 32 bits.
pub data Message : Type 0 where
  detect_result : ℕ → Bool → Message
  connect_result : ℕ → ℕ → Bool → Message

-- -1 as an `int`.
abbrev pub minus_one : ℕ
minus_one = 2 ^ 32 - 1

-- `sizeof(AsyncMessage_t)`
abbrev pub message_size : ℕ
message_size = 16

-- The bytes of an integer of the given size, the lowest first.
unfoldable pub int_bytes : ℕ → ℕ → Bytes
int_bytes zero n = []
int_bytes (suc size) n = (n % 256) ∷ int_bytes size (n / 256)

unfoldable pub bytes_int : Bytes → ℕ
bytes_int [] = 0
bytes_int (b ∷ bs) = b + 256 * bytes_int bs

unfoldable pub bool_byte : Bool → ℕ
bool_byte true = 1
bool_byte false = 0

-- The bytes of a message: the identifier, then the packed members of the structure, then bytes
-- that no member covers, which hold whatever the memory held.
unfoldable pub message_bytes : (ℕ → ℕ) → Message → Bytes
message_bytes junk (detect_result id success) =
    int_bytes 4 0
    ++ int_bytes 4 id
    ++ bool_byte success ∷ junk 9 ∷ junk 10 ∷ junk 11 ∷ junk 12 ∷ junk 13 ∷ junk 14 ∷ junk 15 ∷ []
message_bytes junk (connect_result id fd success) =
    int_bytes 4 1
    ++ int_bytes 4 id
    ++ int_bytes 4 fd
    ++ bool_byte success ∷ junk 13 ∷ junk 14 ∷ junk 15 ∷ []

-- `msg.data.hostDetectResult.sessionId`, which the handler reads whatever the message is.
unfoldable pub detect_session_id : Bytes → ℕ
detect_session_id bytes = bytes_int (take 4 (drop 4 bytes))

-- A member of type `bool` at an offset.
unfoldable pub bool_at : ℕ → Bytes → Bool
bool_at offset bytes = not (bytes_int (take 1 (drop offset bytes)) == 0)

-- What the handler makes of the bytes of a message; none of its cases fits another identifier.
unfoldable pub bytes_message : Bytes → Option Message
bytes_message bytes =
    let id = bytes_int (take 4 bytes) in
    if id == 0
    then some (detect_result (detect_session_id bytes) (bool_at 8 bytes))
    else if id == 1
    then some (
        connect_result (bytes_int (take 4 (drop 4 bytes))) (bytes_int (take 4 (drop 8 bytes)))
          (bool_at 12 bytes))
    else none

-- The object: the two ends of the pipe, and the bytes in it.
pub record AsyncMessenger : Type 0 where
  pub read_fd : ℕ
  pub write_fd : ℕ
  pub pipe : Bytes

-- The constructor, with the answer of `::pipe`; the program ends if there is none.
unfoldable pub new_messenger : Option (ℕ × ℕ) → Option AsyncMessenger
new_messenger none = none
new_messenger (some (r, w)) = some (record { read_fd = r; write_fd = w; pipe = [] })

-- `GetReadFd`
abbrev pub get_read_fd : AsyncMessenger → ℕ
get_read_fd a = a.read_fd

-- `GetFd` of the command socket
abbrev pub command_fd : AsyncMessenger → ℕ
command_fd a = get_read_fd a

-- `WriteMessage`: the bytes that the system takes, a number that `::write` returns or none for
-- its -1, and whether that was the whole message.
unfoldable pub write_message : AsyncMessenger → Bytes → Option ℕ → AsyncMessenger × Bool
write_message a bytes none = (a, false)
write_message a bytes (some n) = (record a { pipe = a.pipe ++ take n bytes }, n == message_size)

-- `ReadMessage`: as many bytes as the pipe has, up to the size of a message, are written over
-- those of `message`. A read of an empty pipe waits.
unfoldable pub read_message : AsyncMessenger → Bytes → Option (AsyncMessenger × Bytes)
read_message a message = elim a.pipe [
  | [] ↦ none
  | b ∷ bs ↦
      let got = take message_size (b ∷ bs) in
      some (record a { pipe = drop message_size (b ∷ bs) }, got ++ drop (length got) message)
]
