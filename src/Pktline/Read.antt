-- ===== src/Pktline/Read.antt =====
-- The readers of plumbing/format/pktline/pktline.go. The buffer that the caller passes is explicit, with
-- what it held before: `read` overwrites a part of it. A slice out of range is a panic.
-- `trim_space` stands for bytes.TrimSpace.
use ai_experimental_search.Base.{
  ℕ, ◌+◌, ◌-◌, Bool, true, false, ◌&&◌, ◌||◌, Option, none, some, [], ◌∷◌, ◌++◌, ltb, ◌==◌, length,
  take, drop, if◌then◌else◌, Bytes,
}
use ai_experimental_search.Stream.{
  Error, unexpected_eof, buffer_full, invalid_pkt_len, Reader, read_full,
}
use ai_experimental_search.Pktline.Length.{len_size, parse_length}
use ai_experimental_search.Pktline.Write.{err_prefix}

-- What Go returns: a value with a nil error or an *ErrorLine of that text, or another error.
pub data Result {ℓ} (A : Type ℓ) : Type ℓ where
  packet : A → Option Bytes → Result A
  failed : Error → Result A
  panic : Result A

abbrev pub map_result : {A B : Type 0} → (A → B) → Result A → Result B
map_result f (packet a e) = packet (f a) e
map_result f (failed e) = failed e
map_result f panic = panic

unfoldable pub has_prefix : Bytes → Bytes → Bool
has_prefix [] bs = true
has_prefix (p ∷ ps) [] = false
has_prefix (p ∷ ps) (b ∷ bs) = p == b && has_prefix ps bs

-- `copy(buf[i:], bs)`, where `bs` fits.
abbrev pub splice : Bytes → ℕ → Bytes → Bytes
splice buf i bs = take i buf ++ (bs ++ drop (i + length bs) buf)

-- `buf[i:j]`
abbrev pub slice : ℕ → ℕ → Bytes → Bytes
slice i j buf = take (j - i) (drop i buf)

abbrev pub is_unexpected_eof : Error → Bool
is_unexpected_eof unexpected_eof = true
is_unexpected_eof _ = false

-- Flush, Delim and ResponseEnd.
abbrev pub is_special : ℕ → Bool
is_special l = l == 0 || l == 1 || l == 2

-- What a bufio.Reader with a buffer of `cap` bytes answers to `Peek(n)`.
unfoldable pub peek : ℕ → Reader → ℕ → Bytes × Option Error
peek cap r n =
    if ltb cap n
    then (take cap r.unread, some buffer_full)
    else if ltb (length r.unread) n
    then (r.unread, some r.ending)
    else (take n r.unread, none)

-- The payload of what was read; nil for the special packets.
abbrev pub payload : Bytes → ℕ → ℕ × Bytes
payload buf l = (l, if ltb l len_size then [] else slice len_size l buf)

module _ (trim_space : Bytes → Bytes) where
  -- The test of the error prefix looks at the whole buffer behind the length.
  unfoldable pub error_text : Bytes → ℕ → Result ℕ
  error_text buf l =
      if has_prefix err_prefix (drop len_size buf)
      then (if ltb l 8 then panic else packet l (some (trim_space (slice 8 l buf))))
      else packet l none

  -- Behind the read of the payload into the buffer.
  unfoldable pub got_payload : Bytes → ℕ → Reader × Bytes × Option Error → Reader × Bytes × Result ℕ
  unfolding error_text
  got_payload buf l (r, got, some err) = (r, splice buf len_size got, failed err)
  got_payload buf l (r, got, none) =
      let buf' = splice buf len_size got in (r, buf', error_text buf' l)

  unfoldable pub read_body : Reader → Bytes → ℕ → Reader × Bytes × Result ℕ
  unfolding got_payload
  read_body r buf l =
      if ltb (length buf) l then (r, buf, panic) else got_payload buf l (read_full r (l - len_size))

  unfoldable pub got_length : Reader → Bytes → Option ℕ → Reader × Bytes × Result ℕ
  unfolding read_body
  got_length r buf none = (r, buf, failed invalid_pkt_len)
  got_length r buf (some l) =
      if is_special l || l == len_size then (r, buf, packet l none) else read_body r buf l

  -- From the length on, which stands at the start of the buffer.
  unfoldable pub read_length : Reader → Bytes → Reader × Bytes × Result ℕ
  unfolding got_length
  read_length r buf = got_length r buf (parse_length buf)

  -- Behind the read of the first four bytes into the buffer.
  unfoldable pub got_header : Bytes → Reader × Bytes × Option Error → Reader × Bytes × Result ℕ
  unfolding read_length
  got_header buf (r, got, some err) =
      (r, splice buf 0 got, failed (if is_unexpected_eof err then invalid_pkt_len else err))
  got_header buf (r, got, none) = read_length r (splice buf 0 got)

  unfoldable pub read : Reader → Bytes → Reader × Bytes × Result ℕ
  unfolding got_header
  read r buf =
      if ltb (length buf) len_size then (r, buf, panic) else got_header buf (read_full r len_size)

  -- `buf` is the pooled buffer, with whatever its last user left in it.
  unfoldable pub read_line : Reader → Bytes → Reader × Bytes × Result (ℕ × Bytes)
  unfolding read
  read_line r buf = let (r', buf', res) = read r buf in (r', buf', map_result (payload buf') res)

  peek_payload : ℕ → Bytes → Result (ℕ × Bytes)
  peek_payload l buf =
      if has_prefix err_prefix buf
      then packet (l, buf) (some (trim_space (drop 4 buf)))
      else packet (l, buf) none

  peeked_body : ℕ → Bytes × Option Error → Result (ℕ × Bytes)
  unfolding peek_payload
  peeked_body l (got, some err) = failed err
  peeked_body l (got, none) = peek_payload l (slice len_size l got)

  peeked_length : ℕ → Reader → Option ℕ → Result (ℕ × Bytes)
  unfolding peeked_body
  peeked_length cap r none = failed invalid_pkt_len
  peeked_length cap r (some l) =
      if is_special l || l == len_size then packet (l, []) none else peeked_body l (peek cap r l)

  peeked_header : ℕ → Reader → Bytes × Option Error → Result (ℕ × Bytes)
  unfolding peeked_length
  peeked_header cap r (header, some err) = failed err
  peeked_header cap r (header, none) = peeked_length cap r (parse_length header)

  -- Nothing is consumed, so the reader is not part of the result.
  unfoldable pub peek_line : ℕ → Reader → Result (ℕ × Bytes)
  unfolding peeked_header
  peek_line cap r = peeked_header cap r (peek cap r len_size)
