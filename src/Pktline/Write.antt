-- ===== src/Pktline/Write.antt =====
-- The writers of plumbing/format/pktline/pktline.go and error.go. Tracing is left out.
-- A nil io.Writer is `none`; fmt's "%s%s\n" is concatenation.
use ai_experimental_search.Base.{
  ℕ, ◌+◌, ◌≤◌, ◌<◌, ◌≡◌, refl, Option, none, some, [], ◌∷◌, ◌++◌, ltb, length, if◌then◌else◌, Bytes,
  arith, ap, append_assoc, length-append, ltb-false,
}
use ai_experimental_search.Stream.{
  Error, nil_writer, payload_too_long, Writer, write_bytes, write_in,
}
use ai_experimental_search.Pktline.Length.{
  len_size, max_payload_size, ascii_hex_16, length-ascii_hex_16,
}

abbrev pub flush_pkt : Bytes
flush_pkt = b'0' ∷ b'0' ∷ b'0' ∷ b'0' ∷ []

abbrev pub delim_pkt : Bytes
delim_pkt = b'0' ∷ b'0' ∷ b'0' ∷ b'1' ∷ []

abbrev pub response_end_pkt : Bytes
response_end_pkt = b'0' ∷ b'0' ∷ b'0' ∷ b'2' ∷ []

abbrev pub empty_pkt : Bytes
empty_pkt = b'0' ∷ b'0' ∷ b'0' ∷ b'4' ∷ []

abbrev pub err_prefix : Bytes
err_prefix = b'E' ∷ b'R' ∷ b'R' ∷ b' ' ∷ []

abbrev Written : Type 0
Written = Writer × ℕ × Option Error

-- The second write of a packet, and the sum of both counts.
write_payload : Bytes → Written → Written
write_payload p (w, n, some e) = (w, n, some e)
write_payload p (w, n, none) = let (w', n', e) = write_bytes w p in (w', n + n', e)

write_packet : Writer → Bytes → Written
unfolding write_payload
write_packet w [] = write_bytes w empty_pkt
write_packet w (b ∷ bs) =
    let p = b ∷ bs in
    if ltb max_payload_size (length p)
    then (w, 0, some payload_too_long)
    else write_payload p (write_bytes w (ascii_hex_16 (length p + len_size)))

unfoldable pub write : Option Writer → Bytes → Option Writer × ℕ × Option Error
unfolding write_packet
write none p = (none, 0, some nil_writer)
write (some w) p = let (w', n, e) = write_packet w p in (some w', n, e)

unfoldable pub writeln : Option Writer → Bytes → Option Writer × ℕ × Option Error
writeln w s = write w (s ++ b'\n' ∷ [])

unfoldable pub write_string : Option Writer → Bytes → Option Writer × ℕ × Option Error
write_string w s = write w s

-- `message` is `e.Error()`. ErrorLine.Encode writes the same line for its text.
unfoldable pub write_error : Option Writer → Bytes → Option Writer × ℕ × Option Error
write_error w message = write w (err_prefix ++ message ++ b'\n' ∷ [])

unfoldable pub write_flush : Writer → Writer × Option Error
write_flush w = let (w', n, e) = write_bytes w flush_pkt in (w', e)

unfoldable pub write_delim : Writer → Writer × Option Error
write_delim w = let (w', n, e) = write_bytes w delim_pkt in (w', e)

unfoldable pub write_response_end : Writer → Writer × Option Error
write_response_end w = let (w', n, e) = write_bytes w response_end_pkt in (w', e)

-- The packet line of a payload: four digits that count themselves too, and the payload.
unfoldable pub encode : Bytes → Bytes
encode [] = empty_pkt
encode (b ∷ bs) = ascii_hex_16 (length (b ∷ bs) + len_size) ++ (b ∷ bs)

pub length-encode : (p : Bytes) → length (encode p) ≡ length p + 4
unfolding encode
length-encode [] = refl
length-encode (b ∷ bs) = omega (
  arith,
  length-append (ascii_hex_16 (length (b ∷ bs) + len_size)) (b ∷ bs),
  length-ascii_hex_16 (length (b ∷ bs) + len_size),
)

-- On a writer that never fails, a payload that fits appends its packet line, and the count is the
-- length of that line.
pub write-encode :
    (out p : Bytes)
    → length p ≤ max_payload_size
    → write (some (record { written = out; room = none })) p
      ≡ (some (record { written = out ++ encode p; room = none }), length p + 4, none)
unfolding write write_in encode
write-encode out [] h = refl
write-encode out (b ∷ bs) h =
    let d = ascii_hex_16 (length (b ∷ bs) + len_size) in
    rw (ltb-false max_payload_size (length (b ∷ bs)) h) (
      rw (append_assoc out d (b ∷ bs), length-ascii_hex_16 (length (b ∷ bs) + len_size))
        (ap (λ (n : ℕ). (some (record { written = out ++ (d ++ b ∷ bs); room = none }), n, none))
          (omega arith)))

-- A longer payload is refused and nothing is written.
pub write_too_long :
    (w : Writer) (p : Bytes)
    → max_payload_size < length p
    → write (some w) p ≡ (some w, 0, some payload_too_long)
unfolding write
write_too_long w [] h = absurd (omega arith)
write_too_long w (b ∷ bs) h = ground arith
