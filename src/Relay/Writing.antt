-- ===== src/Relay/Writing.antt =====
-- What `Write` sends when the system takes it in the end.
use nermalproxy.Prelude.{
  take, drop, take-drop, length-drop, ℕ, zero, suc, ◌-◌, ◌≤◌, ◌≡◌, sym, ap, ◌∙◌, true, false, not,
  if◌then◌else◌, List, [], ◌∷◌, ◌++◌, append_assoc, append-nil, some, length,
}
use nermalproxy.CText.{Bytes}
use nermalproxy.Relay.{
  ClientSocket, WriteOutcome, wrote, write_again, write_failed, WriteResult, write_loop,
  client_write,
}

-- The outcomes take so many bytes in the end: each write takes at least one byte and no more than
-- it is given, interruptions aside.
abbrev pub Delivers : List WriteOutcome → ℕ → Type 0
Delivers ws zero = Unit
Delivers [] (suc n) = ⊥
Delivers (write_again ∷ ws) (suc n) = Delivers ws (suc n)
Delivers (write_failed ∷ ws) (suc n) = ⊥
Delivers (wrote zero ∷ ws) (suc n) = ⊥
Delivers (wrote (suc k) ∷ ws) (suc n) = (k ≤ n) × Delivers ws (n - k)

-- The result of a write that sent all bytes.
abbrev pub sent_all : ClientSocket → Bytes → WriteResult
sent_all s bytes = record { socket = s; count = length bytes; is_error = false; sent = bytes }

write_loop-sent :
    (s : ClientSocket) (ws : List WriteOutcome) (left sent : Bytes)
    → Delivers ws (length left)
    → write_loop s ws left sent ≡ some (sent_all s (sent ++ left))
unfolding write_loop
write_loop-sent s ws [] sent d = ap (λ b. some (sent_all s b)) (sym (append-nil sent))
write_loop-sent s [] (c ∷ left) sent d = absurd d
write_loop-sent s (write_again ∷ ws) (c ∷ left) sent d = write_loop-sent s ws (c ∷ left) sent d
write_loop-sent s (write_failed ∷ ws) (c ∷ left) sent d = absurd d
write_loop-sent s (wrote zero ∷ ws) (c ∷ left) sent d = absurd d
write_loop-sent s (wrote (suc k) ∷ ws) (c ∷ left) sent d =
    let more : Delivers ws (length (drop k left)) = rw (length-drop k left) d.1 in
    write_loop-sent s ws (drop k left) (sent ++ c ∷ take k left) more
    ∙ ap (λ b. some (sent_all s b))
        (append_assoc sent (c ∷ take k left) (drop k left)
          ∙ ap (λ r. sent ++ c ∷ r) (take-drop k left))

-- If the socket is active, and the system takes all bytes in the end, in any portions and with any
-- interruptions, `Write` ends without an error, reports all bytes, and has sent exactly those.
pub client_write-sent :
    (s : ClientSocket) (ws : List WriteOutcome) (bytes : Bytes)
    → s.is_active ≡ true
    → Delivers ws (length bytes)
    → client_write s ws bytes ≡ some (sent_all s bytes)
unfolding client_write
client_write-sent s ws bytes active d =
    ap
      (λ a.
        if not a
        then some (record { socket = s; count = 0; is_error = true; sent = [] })
        else write_loop s ws bytes [])
      active
    ∙ write_loop-sent s ws bytes [] d
