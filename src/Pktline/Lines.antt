-- ===== src/Pktline/Lines.antt =====
-- ReadLine on what Write wrote: the payload comes back, an error line is told apart, and the case in
-- which stale bytes of the buffer are taken for an error prefix.
use ai_experimental_search.Base.{
  ℕ, ◌+◌, ◌-◌, ◌≤◌, ◌<◌, ◌≡◌, ◌≢◌, refl, sym, ap, ◌∙◌, Bool, true, false, ◌&&◌, ◌⊎◌, Option, none,
  some, [], ◌∷◌, ◌++◌, ltb, ◌==◌, length, take, drop, if◌then◌else◌, Bytes, arith, length-append,
  ltb-false, lt→ltb, ltb→lt, take-append, drop-append, drop-append_le, drop-drop, length-drop,
  Bool-cases, inl, inr, ap₂,
}
use ai_experimental_search.Stream.{Error, Reader, Writer}
use ai_experimental_search.Pktline.Length.{
  len_size, max_size, max_payload_size, ascii_hex_16, length-ascii_hex_16, parse_length_fixed,
}
use ai_experimental_search.Pktline.Write.{
  err_prefix, empty_pkt, encode, write, write-encode, write_error,
}
use ai_experimental_search.Pktline.Read.{
  Result, packet, panic, map_result, payload, has_prefix, slice, error_text, read_line, read_length,
}
use ai_experimental_search.Pktline.RoundTrip.{filled, read-header, read-encode}

-- The bytes that Write leaves on a fresh buffer.
abbrev pub written_of : Option Writer → Bytes
written_of none = []
written_of (some w) = w.written

abbrev pub fresh : Option Writer
fresh = some (record { written = []; room = none })

abbrev pub line_of : Bytes → Bytes
line_of p = written_of (write fresh p).0

pub line_of-encode : (p : Bytes) → length p ≤ max_payload_size → line_of p ≡ encode p
line_of-encode p h = rw (write-encode [] p h)

-- Whether the reader takes the packet with this payload for an error line.
abbrev pub looks_like_error : Bytes → Bytes → Bool
looks_like_error p buf = has_prefix err_prefix (p ++ drop (4 + length p) buf)

pub slice_payload :
    (d p buf : Bytes) → length d ≡ 4 → slice len_size (length p + 4) (filled d p buf) ≡ p
slice_payload d p buf h =
    ap (λ t. take (length p + 4 - 4) t) (drop-append 4 d (p ++ drop (4 + length p) buf) (sym h))
    ∙ take-append (length p + 4 - 4) p (drop (4 + length p) buf) (omega arith)

prefix_filled :
    (d p buf : Bytes)
    → length d ≡ 4
    → has_prefix err_prefix (drop len_size (filled d p buf)) ≡ looks_like_error p buf
prefix_filled d p buf h =
    ap (has_prefix err_prefix) (drop-append 4 d (p ++ drop (4 + length p) buf) (sym h))

slice_error :
    (d p buf : Bytes)
    → length d ≡ 4
    → 4 ≤ length p
    → slice 8 (length p + 4) (filled d p buf) ≡ drop 4 p
slice_error d p buf h hp =
    ap (λ t. take (length p + 4 - 8) t) (sym (drop-drop 4 4 (filled d p buf)) ∙ ap (drop 4) behind)
    ∙ ap (λ t. take (length p + 4 - 8) t) (drop-append_le 4 p stale hp)
    ∙ take-append (length p + 4 - 8) (drop 4 p) stale (omega (arith, length-drop 4 p))
  where
    stale : Bytes
    stale = drop (4 + length p) buf

    behind : drop 4 (filled d p buf) ≡ p ++ stale
    behind = drop-append 4 d (p ++ stale) (sym h)

module _ (trim_space : Bytes → Bytes) where
  -- What ReadLine makes of the line of `p`.
  abbrev pub line_result : Bytes → Bytes → Result (ℕ × Bytes)
  line_result p buf =
      if looks_like_error p buf
      then (if ltb (length p) 4
          then panic
          else packet (length p + 4, p) (some (trim_space (drop 4 p))))
      else packet (length p + 4, p) none

  payload-filled :
      (d p buf : Bytes) → length d ≡ 4 → payload (filled d p buf) (length p + 4) ≡ (length p + 4, p)
  payload-filled d p buf h =
      rw (ltb-false (length p + 4) 4 (omega arith))
        (ap (λ t. (length p + 4, t)) (slice_payload d p buf h))

  error_text-filled :
      (d p buf : Bytes)
      → length d ≡ 4
      → map_result
          (payload (filled d p buf))
          (error_text trim_space (filled d p buf) (length p + 4))
        ≡ line_result p buf
  unfolding error_text
  error_text-filled d p buf h =
      rw (prefix_filled d p buf h) (elim (Bool-cases (looks_like_error p buf)) [
        | inr plain ↦ rw plain (ap (λ t. packet t none) (payload-filled d p buf h))
        | inl err ↦ rw err (elim (Bool-cases (ltb (length p) 4)) [
          | inl short ↦
              rw (short, lt→ltb (length p + 4) 8 (omega (arith, ltb→lt (length p) 4 short)))
          | inr long ↦
              let four : 4 ≤ length p = ground arith in
              rw (long, ltb-false (length p + 4) 8 (omega arith))
                (ap₂ (λ t u. packet t (some (trim_space u))) (payload-filled d p buf h)
                  (slice_error d p buf h four))
        ])
      ])

  pub error_text-plain :
      (d p buf : Bytes)
      → length d ≡ 4
      → looks_like_error p buf ≡ false
      → error_text trim_space (filled d p buf) (length p + 4) ≡ packet (length p + 4) none
  unfolding error_text
  error_text-plain d p buf h c = rw (prefix_filled d p buf h) (rw c)

  -- ReadLine on the line of a non-empty payload, whatever the buffer held before.
  pub read_line-bytes :
      (b : ℕ) (bs rest buf : Bytes) (e : Error)
      → length (b ∷ bs) ≤ max_payload_size
      → max_size ≤ length buf
      → read_line trim_space (record { unread = encode (b ∷ bs) ++ rest; ending = e }) buf ≡ (
        record { unread = rest; ending = e },
        filled (ascii_hex_16 (length (b ∷ bs) + 4)) (b ∷ bs) buf,
        line_result (b ∷ bs) buf,
      )
  unfolding read_line
  read_line-bytes b bs rest buf e h fits =
      rw (read-encode trim_space b bs rest buf e h (omega arith)) (
        ap (λ t. (record { unread = rest; ending = e }, filled d p buf, t))
          (error_text-filled d p buf (length-ascii_hex_16 (length p + 4))))
    where
      p : Bytes
      p = b ∷ bs

      d : Bytes
      d = ascii_hex_16 (length p + 4)

  -- ReadLine on the line of the empty payload.
  pub read_line-empty :
      (rest buf : Bytes) (e : Error)
      → max_size ≤ length buf
      → read_line trim_space (record { unread = encode [] ++ rest; ending = e }) buf
        ≡ (record { unread = rest; ending = e }, filled empty_pkt [] buf, packet (4, []) none)
  unfolding read_line encode
  read_line-empty rest buf e fits =
      rw (read-header trim_space empty_pkt rest buf e refl (omega arith))
        (unfold read_length in rw (parse_length_fixed (drop 4 buf)).3)

has_prefix-append : (a p q : Bytes) → length a ≤ length p → has_prefix a (p ++ q) ≡ has_prefix a p
unfolding has_prefix
has_prefix-append [] p q h = refl
has_prefix-append (x ∷ a) [] q h = absurd (omega arith)
has_prefix-append (x ∷ a) (y ∷ p) q h =
    ap (λ t. x == y && t) (has_prefix-append a p q (omega arith))

-- From four bytes on the stale bytes play no part.
pub looks_like_error-long :
    (p buf : Bytes) → 4 ≤ length p → looks_like_error p buf ≡ has_prefix err_prefix p
looks_like_error-long p buf h = has_prefix-append err_prefix p (drop (4 + length p) buf) h

module _ (trim_space : Bytes → Bytes) where
  abbrev pub stream : Bytes → Error → Reader
  stream u e = record { unread = u; ending = e }

  -- A payload that fits one packet, written by Write on an empty buffer and followed by any bytes, comes
  -- back from ReadLine with its packet length and no error, and exactly its line is consumed; unless the
  -- reader's buffer, with the payload copied into it, shows the error prefix.
  pub read_line-write :
      (p rest buf : Bytes) (e : Error)
      → length p ≤ max_payload_size
      → max_size ≤ length buf
      → (p ≡ []) ⊎ (looks_like_error p buf ≡ false)
      → ((read_line trim_space (stream (line_of p ++ rest) e) buf).0 ≡ stream rest e)
        × ((read_line trim_space (stream (line_of p ++ rest) e) buf).2
            ≡ packet (length p + 4, p) none)
  read_line-write [] rest buf e h fits c =
      rw (line_of-encode [] h, read_line-empty trim_space rest buf e fits) (refl, refl)
  read_line-write (b ∷ bs) rest buf e h fits (inl c) = cc
  read_line-write (b ∷ bs) rest buf e h fits (inr c) =
      rw (line_of-encode (b ∷ bs) h, read_line-bytes trim_space b bs rest buf e h fits, c)
        (refl, refl)

  -- A payload of one to three bytes that the stale bytes of the buffer complete to the error prefix makes
  -- ReadLine slice out of range, which panics.
  pub read_line_stale :
      (p rest buf : Bytes) (e : Error)
      → p ≢ []
      → length p < 4
      → max_size ≤ length buf
      → looks_like_error p buf ≡ true
      → (read_line trim_space (stream (line_of p ++ rest) e) buf).2 ≡ panic
  read_line_stale [] rest buf e ne h fits c = absurd (ne refl)
  read_line_stale (b ∷ bs) rest buf e ne h fits c = rw (
    line_of-encode (b ∷ bs) (omega arith),
    read_line-bytes trim_space b bs rest buf e (omega arith) fits,
    c,
    lt→ltb (length (b ∷ bs)) 4 h,
  )

  -- A message that WriteError wrote comes back from ReadLine as an ErrorLine, whose text is the message and
  -- its newline, trimmed; whatever the buffer held.
  pub read_line-write_error :
      (message rest buf : Bytes) (e : Error)
      → length message + 5 ≤ max_payload_size
      → max_size ≤ length buf
      → (let line = written_of (write_error fresh message).0 in
          let body = err_prefix ++ message ++ b'\n' ∷ [] in
          (read_line trim_space (stream (line ++ rest) e) buf).2
          ≡ packet (length body + 4, body) (some (trim_space (message ++ b'\n' ∷ []))))
  unfolding write_error has_prefix
  read_line-write_error message rest buf e h fits =
      let fit : length (err_prefix ++ message ++ b'\n' ∷ []) ≤ max_payload_size =
        omega (arith, length-append message (b'\n' ∷ [])) in
      rw (line_of-encode (err_prefix ++ message ++ b'\n' ∷ []) fit) (
        rw
          (read_line-bytes trim_space b'E' (b'R' ∷ b'R' ∷ b' ' ∷ (message ++ b'\n' ∷ [])) rest buf e
            fit fits)
          (rw (ltb-false (length (err_prefix ++ message ++ b'\n' ∷ [])) 4 (omega arith))))
