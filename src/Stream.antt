-- ===== src/Stream.antt =====
-- Go's io.Reader and io.Writer as the sources use them, and the errors of the packet layer
-- (plumbing/format/pktline, plumbing/protocol/packp/sideband).
use ai_experimental_search.Base.{
  ℕ, ◌-◌, Option, none, some, [], ◌∷◌, ◌++◌, leb, length, take, drop, if◌then◌else◌, Bytes, ◌≡◌,
  arith, length-append, take-append, drop-append, leb-true,
}

pub data Error : Type 0 where
  eof unexpected_eof io_error buffer_full : Error
  payload_too_long invalid_pkt_len nil_writer invalid_error_line : Error
  max_packed_exceeded invalid_sideband unknown_channel : Error
  remote_error : Bytes → Error
  error_line : Bytes → Error

-- A stream of bytes: what is still to be read, and the error it reports behind its last byte.
pub record Reader : Type 0 where
  pub unread : Bytes
  pub ending : Error

-- A sink: what was written, and how many more bytes it takes before it fails (`none`: it never fails).
pub record Writer : Type 0 where
  pub written : Bytes
  pub room : Option ℕ

-- The calls of io.ReadFull: the bytes read, and the error. A stream that ends behind the first of them
-- turns io.EOF into io.ErrUnexpectedEOF.
abbrev pub short_read : Bytes → Error → Error
short_read [] e = e
short_read (b ∷ bs) eof = unexpected_eof
short_read (b ∷ bs) e = e

unfoldable pub read_full : Reader → ℕ → Reader × Bytes × Option Error
read_full r n =
    if leb n (length r.unread)
    then (record r { unread = drop n r.unread }, take n r.unread, none)
    else (record r { unread = [] }, r.unread, some (short_read r.unread r.ending))

-- `w.Write(p)`: the count of bytes written, and the error when that is less than all.
unfoldable pub write_in : Option ℕ → Writer → Bytes → Writer × ℕ × Option Error
write_in none w p = (record w { written = w.written ++ p }, length p, none)
write_in (some k) w p =
    if leb (length p) k
    then (record { written = w.written ++ p; room = some (k - length p) }, length p, none)
    else (record { written = w.written ++ take k p; room = some 0 }, k, some io_error)

abbrev pub write_bytes : Writer → Bytes → Writer × ℕ × Option Error
write_bytes w p = write_in w.room w p

-- A stream that begins with `n` bytes gives exactly these.
pub read_full-append :
    (n : ℕ) (xs ys : Bytes) (e : Error)
    → n ≡ length xs
    → read_full (record { unread = xs ++ ys; ending = e }) n
      ≡ (record { unread = ys; ending = e }, xs, none)
unfolding read_full
read_full-append n xs ys e h =
    rw (leb-true n (length (xs ++ ys)) (omega (arith, length-append xs ys)))
      (rw (take-append n xs ys h, drop-append n xs ys h))
