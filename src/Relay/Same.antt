-- ===== src/Relay/Same.antt =====
-- Reads and writes of a client socket keep its descriptor and its session.
use nermalproxy.Prelude.{
  ℕ, zero, suc, ◌≡◌, refl, inl, inr, ◌&&◌, List, [], ◌∷◌, ◌++◌, some, arith, leb, ltb, ◌==◌,
  Bool-cases, drop, take,
}
use nermalproxy.CText.{Bytes}
use nermalproxy.Relay.{
  ClientSocket, on_error, ReadOutcome, WriteOutcome, wrote, write_again, write_failed, size_max,
  num_read, is_recoverable, ReadResult, read_loop, client_read, WriteResult, write_loop,
  client_write, buffer_size, write_count,
}

-- The same socket, perhaps after an error.
pub record IsSame (s s' : ClientSocket) : Type 0 where
  pub fd : s'.socket_fd ≡ s.socket_fd
  pub session : s'.session_id ≡ s.session_id

IsSame-refl : (s : ClientSocket) → IsSame s s
IsSame-refl s = record { fd = refl; session = refl }

read_loop-IsSame :
    (s : ClientSocket) (rs : List ReadOutcome) (r : ReadResult)
    → read_loop s rs ≡ some r
    → IsSame s r.socket
unfolding read_loop on_error
read_loop-IsSame s [] r e = absurd cc
read_loop-IsSame s (x ∷ rs) r e = elim (Bool-cases (leb (num_read x) 0)) [
  | inr some_bytes ↦
      let shown = rw (some_bytes, read_loop) at e in
      record { fd = ground arith; session = ground arith }
  | inl no_bytes ↦ elim (Bool-cases (num_read x == size_max && is_recoverable x)) [
    | inl again ↦ read_loop-IsSame s rs r (rw (no_bytes, read_loop, again) at e)
    | inr over ↦
        let shown = rw (no_bytes, read_loop, over) at e in
        record { fd = ground arith; session = ground arith }
  ]
]

pub client_read-IsSame :
    (s : ClientSocket) (rs : List ReadOutcome) (r : ReadResult)
    → client_read s rs ≡ some r
    → IsSame s r.socket
unfolding client_read
client_read-IsSame s rs r e = elim (Bool-cases s.is_active) [
  | inl active ↦ let shown : read_loop s rs ≡ some r = ground arith in read_loop-IsSame s rs r shown
  | inr inactive ↦
      let shown = rw (inactive, client_read) at e in
      record { fd = ground arith; session = ground arith }
]

write_loop-IsSame :
    (s : ClientSocket) (ws : List WriteOutcome) (left sent : Bytes) (w : WriteResult)
    → write_loop s ws left sent ≡ some w
    → IsSame s w.socket
unfolding write_loop on_error
write_loop-IsSame s ws [] sent w e = record { fd = ground arith; session = ground arith }
write_loop-IsSame s [] (c ∷ left) sent w e = absurd cc
write_loop-IsSame s (write_again ∷ ws) (c ∷ left) sent w e =
    write_loop-IsSame s ws (c ∷ left) sent w e
write_loop-IsSame s (write_failed ∷ ws) (c ∷ left) sent w e = record {
  fd = ground arith;
  session = ground arith;
}
write_loop-IsSame s (wrote zero ∷ ws) (c ∷ left) sent w e = record {
  fd = ground arith;
  session = ground arith;
}
write_loop-IsSame s (wrote (suc n) ∷ ws) (c ∷ left) sent w e =
    write_loop-IsSame s ws (drop n left) (sent ++ c ∷ take n left) w e

client_write-IsSame :
    (s : ClientSocket) (ws : List WriteOutcome) (bytes : Bytes) (w : WriteResult)
    → client_write s ws bytes ≡ some w
    → IsSame s w.socket
unfolding client_write
client_write-IsSame s ws bytes w e = elim (Bool-cases s.is_active) [
  | inl active ↦
      let shown : write_loop s ws bytes [] ≡ some w = ground arith in
      write_loop-IsSame s ws bytes [] w shown
  | inr inactive ↦
      let shown = rw (inactive, client_write) at e in
      record { fd = ground arith; session = ground arith }
]

pub write_count-IsSame :
    (s : ClientSocket) (ws : List WriteOutcome) (count : ℕ) (bytes : Bytes) (w : WriteResult)
    → write_count s ws count bytes ≡ some w
    → IsSame s w.socket
unfolding write_count on_error
write_count-IsSame s ws count bytes w e = elim (Bool-cases (s.is_active && ltb buffer_size count)) [
  | inl over ↦
      let shown = rw (over, write_count) at e in
      record { fd = ground arith; session = ground arith }
  | inr inside ↦ client_write-IsSame s ws bytes w (rw (inside, write_count) at e)
]
