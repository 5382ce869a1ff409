-- ===== src/Tests/MessengerTests.antt =====
-- The messenger with two messages.
use nermalproxy.Prelude.{ℕ, ◌≡◌, refl, true, false, List, [], ◌∷◌, some, arith}
use nermalproxy.Messenger.{
  Message, detect_result, connect_result, minus_one, AsyncMessenger, new_messenger,
}
use nermalproxy.Messenger.Queue.{
  Call, write, read, written, received, waits, pipe_calls, queue_call, queue_calls,
  pipe_calls-queue_calls,
}

abbrev messenger : AsyncMessenger
messenger = record { read_fd = 5; write_fd = 6; pipe = [] }

abbrev junk : ℕ → ℕ
junk offset = 255

abbrev failure : Message
failure = connect_result 258 minus_one false

abbrev calls : List Call
calls =
    read
    ∷ write junk (detect_result 70000 true) true
    ∷ write junk (detect_result 1 true) false
    ∷ write junk failure true
    ∷ read
    ∷ read
    ∷ read
    ∷ []

queue_test :
    queue_calls [] calls
    ≡ waits
      ∷ written true
      ∷ written false
      ∷ written true
      ∷ received (some (detect_result 70000 true))
      ∷ received (some failure)
      ∷ waits
      ∷ []
unfolding queue_calls queue_call
queue_test = refl

pipe_calls-queue_calls_example : pipe_calls messenger calls ≡ queue_calls [] calls
unfolding new_messenger
pipe_calls-queue_calls_example = pipe_calls-queue_calls 5 6 messenger calls refl (omega arith)
