-- ===== src/Examples/WebSocket.antt =====
-- pkg/parser/websocket/conn.go at concrete inputs: message readers that give what fits.
use mproxy.Prelude.{ℕ, ◌≡◌, ◌≤◌, ◌<◌, refl, List, [], ◌∷◌, length, take, length-take, some, arith}
use mproxy.Errors.{eof, other}
use mproxy.Handler.{Bytes}
use mproxy.Parser.WebSocket.Conn.{
  Ending, more, at_end, Conn, new_conn, read, read_all, answer, read_next, write,
}
use mproxy.Parser.WebSocket.Conn.Stream.{IsReader}
use mproxy.Parser.WebSocket.Conn.Delivery.{
  IsUnbroken, write_all, write_all-read_all, read_all-content,
}

abbrev fits : Bytes → ℕ → ℕ × Ending
fits [] n = (0, at_end)
fits (b ∷ bs) n = (length (take n (b ∷ bs)), more)

fits_bound : (m : Bytes) (n : ℕ) → ((fits m n).0 ≤ n) × ((fits m n).0 ≤ length m)
fits_bound [] n = (omega arith, omega arith)
fits_bound (b ∷ bs) n =
    (omega (arith, length-take n (b ∷ bs)), omega (arith, length-take n (b ∷ bs)))

fits_whole : (m : Bytes) (n : ℕ) → (fits m n).1 ≡ at_end → (fits m n).0 ≡ length m
fits_whole [] n h = refl
fits_whole (b ∷ bs) n h = cc

fits_progress : (m : Bytes) (n : ℕ) → 0 < n → (fits m n).1 ≡ more → 0 < (fits m n).0
fits_progress [] n p h = cc
fits_progress (b ∷ bs) n p h = omega (arith, length-take n (b ∷ bs))

fits-IsReader : IsReader fits
fits-IsReader = record { bound = fits_bound; whole = fits_whole; progress = fits_progress }

fits-IsUnbroken : IsUnbroken fits
fits-IsUnbroken [] n e h = cc
fits-IsUnbroken (b ∷ bs) n e h = cc

-- The first of three messages is empty, the second longer than the buffer.
abbrev waiting : Conn
waiting = new_conn ([] ∷ (1 ∷ 2 ∷ 3 ∷ []) ∷ (4 ∷ []) ∷ []) eof

read-waiting : (read fits waiting 2).bytes ≡ 1 ∷ 2 ∷ []
unfolding read read_next answer new_conn
read-waiting = refl

read_all-content_example :
    let (bytes, e, c') = read_all fits 5 waiting 2 in (bytes ≡ 1 ∷ 2 ∷ 3 ∷ 4 ∷ []) × (e ≡ some eof)
unfolding new_conn
read_all-content_example =
    read_all-content fits fits-IsReader fits-IsUnbroken 5 waiting 2 (omega arith) (omega arith)

abbrev parts : List Bytes
parts = (1 ∷ 2 ∷ 3 ∷ []) ∷ [] ∷ (4 ∷ 5 ∷ []) ∷ []

write_all-read_all_example :
    let received = read_all fits 6 (new_conn parts (other "closed")) 2 in
    (received.0 ≡ 1 ∷ 2 ∷ 3 ∷ 4 ∷ 5 ∷ []) × (received.1 ≡ some (other "closed"))
unfolding write_all write new_conn
write_all-read_all_example =
    write_all-read_all fits fits-IsReader fits-IsUnbroken parts eof (other "closed") 2 (omega arith)
