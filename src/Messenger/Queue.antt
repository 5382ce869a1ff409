-- ===== src/Messenger/Queue.antt =====
-- The pipe of bytes as a queue of messages.
use nermalproxy.Prelude.{
  ℕ, ◌≡◌, refl, sym, subst, ap, ap₂, Bool, true, false, List, [], ◌∷◌, ◌++◌, Option, none, some,
  append_assoc, append-nil, All, replicate, take,
}
use nermalproxy.CText.{Bytes}
use nermalproxy.Messenger.{
  Message, detect_result, connect_result, message_size, message_bytes, int_bytes, bytes_message,
  AsyncMessenger, new_messenger, write_message, read_message,
}
use nermalproxy.Messenger.Layout.{Fits, bytes_message-message_bytes}

-- A call on the messenger: a message with the bytes between its members, and whether the system
-- takes it; or a read. A write of up to `PIPE_BUF` bytes to a pipe is taken whole or not at all.
pub data Call : Type 0 where
  write : (ℕ → ℕ) → Message → Bool → Call
  read : Call

-- What a call gives.
pub data Answer : Type 0 where
  written : Bool → Answer
  received : Option Message → Answer
  waits : Answer

abbrev pub system_answer : Bool → Option ℕ
system_answer true = some message_size
system_answer false = none

-- The message that a read starts with, all zero.
abbrev pub blank : Bytes
blank = replicate 16 0

-- A call on the pipe.
unfoldable pub pipe_call : AsyncMessenger → Call → AsyncMessenger × Answer
pipe_call a (write junk m taken) =
    let (a', whole) = write_message a (message_bytes junk m) (system_answer taken) in
    (a', written whole)
pipe_call a read = elim (read_message a blank) [
  | none ↦ (a, waits)
  | some (a', bytes) ↦ (a', received (bytes_message bytes))
]

-- The same call on a queue of messages.
unfoldable pub queue_call : List Message → Call → List Message × Answer
queue_call ms (write junk m true) = (ms ++ m ∷ [], written true)
queue_call ms (write junk m false) = (ms, written false)
queue_call [] read = ([], waits)
queue_call (m ∷ ms) read = (ms, received (some m))

unfoldable pub pipe_calls : AsyncMessenger → List Call → List Answer
pipe_calls a [] = []
pipe_calls a (c ∷ cs) = let (a', answer) = pipe_call a c in answer ∷ pipe_calls a' cs

unfoldable pub queue_calls : List Message → List Call → List Answer
queue_calls ms [] = []
queue_calls ms (c ∷ cs) = let (ms', answer) = queue_call ms c in answer ∷ queue_calls ms' cs

-- Every message that is written has integers of 32 bits.
abbrev pub IsSmall : Call → Type 0
IsSmall (write junk m taken) = Fits m
IsSmall read = Unit {0}

-- The bytes are those of the messages, in their order.
data Holds : Bytes → List Message → Type 0 where
  empty : Holds [] []
  more :
      {bytes : Bytes} {ms : List Message} (junk : ℕ → ℕ) (m : Message)
      → Fits m
      → Holds bytes ms
      → Holds (message_bytes junk m ++ bytes) (m ∷ ms)

Holds-append :
    (bytes : Bytes) (ms : List Message) (junk : ℕ → ℕ) (m : Message)
    → Fits m
    → Holds bytes ms
    → Holds (bytes ++ message_bytes junk m) (ms ++ m ∷ [])
Holds-append _ _ junk m fits empty =
    subst (λ bytes. Holds bytes (m ∷ [])) (append-nil (message_bytes junk m))
      (more junk m fits empty)
Holds-append _ _ junk m fits (more {bytes} {ms} junk' m' fits' h) =
    subst (λ all. Holds all (m' ∷ ms ++ m ∷ []))
      (sym (append_assoc (message_bytes junk' m') bytes (message_bytes junk m)))
      (more junk' m' fits' (Holds-append bytes ms junk m fits h))

-- What one call gives and leaves.
Agrees : AsyncMessenger × Answer → List Message × Answer → Type 0
Agrees (a, answer) (ms, answer') = Holds a.pipe ms × (answer ≡ answer')

take_message :
    (junk : ℕ → ℕ) (m : Message) → take message_size (message_bytes junk m) ≡ message_bytes junk m
unfolding message_bytes int_bytes
take_message junk (detect_result id success) = refl
take_message junk (connect_result id fd success) = refl

-- A read of a pipe that starts with a message.
read_first :
    (r w : ℕ) (bytes : Bytes) (junk : ℕ → ℕ) (m : Message)
    → pipe_call (record { read_fd = r; write_fd = w; pipe = message_bytes junk m ++ bytes }) read
      ≡ (
        record { read_fd = r; write_fd = w; pipe = bytes },
        received (bytes_message (message_bytes junk m)),
      )
unfolding pipe_call read_message message_bytes int_bytes
read_first r w bytes junk (detect_result id success) = refl
read_first r w bytes junk (connect_result id fd success) = refl

read-Agrees :
    (r w : ℕ) (bytes : Bytes) (ms : List Message)
    → Holds bytes ms
    → Agrees
        (pipe_call (record { read_fd = r; write_fd = w; pipe = bytes }) read)
        (queue_call ms read)
unfolding Agrees pipe_call queue_call read_message
read-Agrees r w _ _ empty = (empty, refl)
read-Agrees r w _ _ (more {bytes} {ms} junk m fits h) =
    subst (λ result. Agrees result (queue_call (m ∷ ms) read)) (sym (read_first r w bytes junk m))
      (h, ap received (bytes_message-message_bytes junk m fits))

call-Agrees :
    (a : AsyncMessenger) (ms : List Message) (c : Call)
    → Holds a.pipe ms
    → IsSmall c
    → Agrees (pipe_call a c) (queue_call ms c)
unfolding Agrees pipe_call queue_call write_message
call-Agrees a ms (write junk m true) h fits =
    (rw (take_message junk m) (Holds-append a.pipe ms junk m fits h), refl)
call-Agrees a ms (write junk m false) h fits = (h, refl)
call-Agrees a ms read h small = read-Agrees a.read_fd a.write_fd a.pipe ms h

same_answers :
    (a : AsyncMessenger) (ms : List Message) (cs : List Call)
    → Holds a.pipe ms
    → All IsSmall cs
    → pipe_calls a cs ≡ queue_calls ms cs
unfolding Agrees pipe_calls queue_calls
same_answers a ms [] h small = refl
same_answers a ms (c ∷ cs) h small =
    let (h', same) = call-Agrees a ms c h small.0 in
    ap₂ (λ x xs. x ∷ xs) same (same_answers (pipe_call a c).0 (queue_call ms c).0 cs h' small.1)

-- Let the integers of all messages fit in 32 bits, and let the system take the bytes of a message
-- whole or not at all. Any sequence of calls of WriteMessage and ReadMessage on a new messenger
-- gives what it gives on an empty queue of messages: a write reports whether the message was
-- appended, a read gives the oldest message left and takes it away, or waits if there is none.
pub pipe_calls-queue_calls :
    (r w : ℕ) (a : AsyncMessenger) (cs : List Call)
    → new_messenger (some (r, w)) ≡ some a
    → All IsSmall cs
    → pipe_calls a cs ≡ queue_calls [] cs
unfolding new_messenger
pipe_calls-queue_calls r w a cs made small =
    let fresh : record { read_fd = r; write_fd = w; pipe = [] } ≡ a = cc made in
    same_answers a [] cs (subst (λ x. Holds x.pipe []) fresh empty) small
