-- ===== src/Pktline/RoundTrip.antt =====
-- What the readers make of the lines that the writers wrote.
use ai_experimental_search.Base.{
  ℕ, ◌+◌, ◌-◌, ◌≤◌, ◌<◌, ◌≡◌, refl, sym, ap, ◌∙◌, false, ◌||◌, some, ◌∷◌, ◌++◌, ◌==◌, length, drop,
  Bytes, arith, append_assoc, length-append, ltb-false, take-append, drop-append, drop-drop,
  length-drop,
}
use ai_experimental_search.Stream.{Error, Reader, read_full-append}
use ai_experimental_search.Pktline.Length.{
  len_size, max_payload_size, ascii_hex_16, parse_length, length-ascii_hex_16,
  parse_length-ascii_hex_16,
}
use ai_experimental_search.Pktline.Write.{encode}
use ai_experimental_search.Pktline.Read.{
  splice, is_special, error_text, read_body, read_length, read,
}

-- The buffer after a packet with this header and payload was read into it.
abbrev pub filled : Bytes → Bytes → Bytes → Bytes
filled d p buf = d ++ (p ++ drop (4 + length p) buf)

-- The buffer keeps its length.
pub length-filled :
    (d p buf : Bytes)
    → length d ≡ 4
    → length p + 4 ≤ length buf
    → length (filled d p buf) ≡ length buf
length-filled d p buf h fits = omega (
  arith,
  length-append d (p ++ drop (4 + length p) buf),
  length-append p (drop (4 + length p) buf),
  length-drop (4 + length p) buf,
)

-- The two copies into the buffer.
splice_header : (d buf : Bytes) → splice buf 0 d ≡ d ++ drop (0 + length d) buf
splice_header d buf = refl

splice_payload :
    (d p buf : Bytes) → length d ≡ 4 → splice (d ++ drop (0 + length d) buf) 4 p ≡ filled d p buf
splice_payload d p buf h =
    rw (take-append 4 d (drop (0 + length d) buf) (sym h)) (ap (λ t. d ++ (p ++ t)) behind)
  where
    behind : drop (4 + length p) (d ++ drop (0 + length d) buf) ≡ drop (4 + length p) buf
    behind =
        sym (drop-drop 4 (length p) (d ++ drop (0 + length d) buf))
        ∙ ap (λ t. drop (length p) t) (drop-append 4 d (drop (0 + length d) buf) (sym h))
        ∙ drop-drop (0 + length d) (length p) buf
        ∙ ap (λ (k : ℕ). drop k buf) (omega arith)

special_false : (l : ℕ) → 4 < l → (is_special l || l == len_size) ≡ false
special_false l h = ground arith

module _ (trim_space : Bytes → Bytes) where
  -- Four bytes are there: the reader goes on from the length in them.
  pub read-header :
      (d u buf : Bytes) (e : Error)
      → length d ≡ 4
      → 4 ≤ length buf
      → read trim_space (record { unread = d ++ u; ending = e }) buf
        ≡ read_length trim_space (record { unread = u; ending = e }) (d ++ drop (0 + length d) buf)
  unfolding read
  read-header d u buf e h fits =
      rw (ltb-false (length buf) 4 fits) (rw (read_full-append 4 d u e (sym h)))

  pub read_length-data :
      (r : Reader) (buf : Bytes) (l : ℕ)
      → parse_length buf ≡ some l
      → 4 < l
      → read_length trim_space r buf ≡ read_body trim_space r buf l
  unfolding read_length
  read_length-data r buf l h hl = rw h (rw (special_false l hl))

  read_body-data :
      (p u buf : Bytes) (e : Error)
      → length p + 4 ≤ length buf
      → read_body trim_space (record { unread = p ++ u; ending = e }) buf (length p + 4) ≡ (
          let buf' = splice buf 4 p in
          (record { unread = u; ending = e }, buf', error_text trim_space buf' (length p + 4)))
  unfolding read_body
  read_body-data p u buf e fits =
      rw (ltb-false (length buf) (length p + 4) fits)
        (rw (read_full-append (length p + 4 - 4) p u e (omega arith)))

  -- A non-empty payload that fits: the reader stops behind it, and the error prefix is tested.
  pub read-encode :
      (b : ℕ) (bs rest buf : Bytes) (e : Error)
      → length (b ∷ bs) ≤ max_payload_size
      → length (b ∷ bs) + 4 ≤ length buf
      → (let p = b ∷ bs in
          let buf' = filled (ascii_hex_16 (length p + 4)) p buf in
          read trim_space (record { unread = encode p ++ rest; ending = e }) buf
          ≡ (record { unread = rest; ending = e }, buf', error_text trim_space buf' (length p + 4)))
  unfolding encode
  read-encode b bs rest buf e h fits = rw (append_assoc d p rest) (
      read-header d (p ++ rest) buf e four (omega arith)
      ∙ read_length-data (record { unread = p ++ rest; ending = e }) (d ++ drop (0 + length d) buf)
          (length p + 4) (parse_length-ascii_hex_16 (length p + 4) _ (omega arith) (omega arith))
          (omega arith)
      ∙ read_body-data p rest (d ++ drop (0 + length d) buf) e room
      ∙ ap (λ t. (record { unread = rest; ending = e }, t, error_text trim_space t (length p + 4)))
          (splice_payload d p buf four))
    where
      p : Bytes
      p = b ∷ bs

      d : Bytes
      d = ascii_hex_16 (length p + 4)

      four : length d ≡ 4
      four = length-ascii_hex_16 (length p + 4)

      room : length p + 4 ≤ length (d ++ drop (0 + length d) buf)
      room =
          omega
            (arith, four, length-append d (drop (0 + length d) buf), length-drop (0 + length d) buf)
