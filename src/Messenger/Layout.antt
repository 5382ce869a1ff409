-- ===== src/Messenger/Layout.antt =====
-- The bytes of a message, and what is read from them.
use nermalproxy.Prelude.{ℕ, ◌^◌, ◌<◌, ◌≡◌, refl, ap, ap₂, true, false, some, arith, length}
use nermalproxy.Messenger.{
  Message, detect_result, connect_result, message_size, int_bytes, bytes_int, bool_byte,
  message_bytes, detect_session_id, bool_at, bytes_message,
}

-- The integers of the message fit in 32 bits.
abbrev pub Fits : Message → Type 0
Fits (detect_result id success) = id < 2 ^ 32
Fits (connect_result id fd success) = (id < 2 ^ 32) × (fd < 2 ^ 32)

abbrev pub session_of : Message → ℕ
session_of (detect_result id success) = id
session_of (connect_result id fd success) = id

four_bytes : (n : ℕ) → n < 2 ^ 32 → bytes_int (int_bytes 4 n) ≡ n
unfolding bytes_int int_bytes
four_bytes n h = omega arith

pub length-message_bytes :
    (junk : ℕ → ℕ) (m : Message) → length (message_bytes junk m) ≡ message_size
unfolding message_bytes int_bytes
length-message_bytes junk (detect_result id success) = refl
length-message_bytes junk (connect_result id fd success) = refl

-- For integers of 32 bits, the message that the handler finds in the bytes of a message is that
-- message, whatever the bytes between its members hold.
pub bytes_message-message_bytes :
    (junk : ℕ → ℕ) (m : Message) → Fits m → bytes_message (message_bytes junk m) ≡ some m
unfolding bytes_message message_bytes detect_session_id bool_at bool_byte int_bytes bytes_int
bytes_message-message_bytes junk (detect_result id true) fits =
    ap (λ n. some (detect_result n true)) (four_bytes id fits)
bytes_message-message_bytes junk (detect_result id false) fits =
    ap (λ n. some (detect_result n false)) (four_bytes id fits)
bytes_message-message_bytes junk (connect_result id fd true) fits =
    ap₂ (λ n k. some (connect_result n k true)) (four_bytes id fits.0) (four_bytes fd fits.1)
bytes_message-message_bytes junk (connect_result id fd false) fits =
    ap₂ (λ n k. some (connect_result n k false)) (four_bytes id fits.0) (four_bytes fd fits.1)

-- The handler reads the session of every message through the member of the union for detections.
-- For integers of 32 bits it gets the session of the message, of a connection also.
pub detect_session_id-message_bytes :
    (junk : ℕ → ℕ) (m : Message) → Fits m → detect_session_id (message_bytes junk m) ≡ session_of m
unfolding message_bytes detect_session_id int_bytes bytes_int
detect_session_id-message_bytes junk (detect_result id success) fits = four_bytes id fits
detect_session_id-message_bytes junk (connect_result id fd success) fits = four_bytes id fits.0
