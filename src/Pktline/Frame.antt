-- ===== src/Pktline/Frame.antt =====
-- How much of the stream a read takes.
use ai_experimental_search.Base.{
  ℕ, ◌-◌, ◌≤◌, ◌≡◌, refl, ap, ◌∙◌, Option, none, some, ltb, length, drop, drop-drop, length-drop,
  if◌then◌else◌, Bytes, arith, Bool-cases, inl, inr,
}
use ai_experimental_search.Stream.{Error, Reader, read_full}
use ai_experimental_search.Pktline.Length.{parse_length}
use ai_experimental_search.Pktline.Read.{
  packet, error_text, read_body, got_length, got_header, read_length, read, splice,
}

-- The bytes of a packet of this length on the stream: a special packet has its four digits only.
abbrev pub frame : ℕ → ℕ
frame l = if ltb l 4 then 4 else l

module _ (trim_space : Bytes → Bytes) where
  error_text-packet :
      (buf : Bytes) (l : ℕ) {k : ℕ} {e : Option Bytes}
      → error_text trim_space buf l ≡ packet k e
      → k ≡ l
  unfolding error_text
  error_text-packet buf l h = ground arith

  -- Behind a payload.
  read_body-takes :
      (r : Reader) (buf : Bytes) (l : ℕ) {k : ℕ} {e : Option Bytes}
      → (read_body trim_space r buf l).2 ≡ packet k e
      → (k ≡ l)
        × (l - 4 ≤ length r.unread)
        × ((read_body trim_space r buf l).0.unread ≡ drop (l - 4) r.unread)
  unfolding read_body read_full
  read_body-takes r buf l h = grind (arith, error_text-packet)

  got_length-takes :
      (r : Reader) (buf : Bytes) (o : Option ℕ) {k : ℕ} {e : Option Bytes}
      → (got_length trim_space r buf o).2 ≡ packet k e
      → (frame k - 4 ≤ length r.unread)
        × ((got_length trim_space r buf o).0.unread ≡ drop (frame k - 4) r.unread)
  unfolding got_length
  got_length-takes r buf none h = cc
  got_length-takes r buf (some l) {k} {e} h =
      ground (arith, read_body-takes r buf l {k = k} {e = e})

  read_length-takes :
      (r : Reader) (buf : Bytes) {k : ℕ} {e : Option Bytes}
      → (read_length trim_space r buf).2 ≡ packet k e
      → (frame k - 4 ≤ length r.unread)
        × ((read_length trim_space r buf).0.unread ≡ drop (frame k - 4) r.unread)
  unfolding read_length
  read_length-takes r buf h = got_length-takes r buf (parse_length buf) h

  got_header-takes :
      (buf got : Bytes) (r : Reader) (o : Option Error) {k : ℕ} {e : Option Bytes}
      → (got_header trim_space buf (r, got, o)).2 ≡ packet k e
      → (o ≡ none)
        × (frame k - 4 ≤ length r.unread)
        × ((got_header trim_space buf (r, got, o)).0.unread ≡ drop (frame k - 4) r.unread)
  unfolding got_header
  got_header-takes buf got r (some err) h = cc
  got_header-takes buf got r none h =
      let (fits, rest) = read_length-takes r (splice buf 0 got) h in (refl, fits, rest)

  -- Four bytes at least, and what is left behind them.
  read_full-four :
      (r : Reader)
      → (read_full r 4).2 ≡ none
      → (4 ≤ length r.unread) × ((read_full r 4).0.unread ≡ drop 4 r.unread)
  unfolding read_full
  read_full-four r h = ground arith

  -- A read that returns a packet of length `l` takes the four digits and the `l - 4` bytes of the
  -- payload off the stream, and nothing more.
  pub read_takes :
      (r : Reader) (buf : Bytes) {l : ℕ} {e : Option Bytes}
      → (read trim_space r buf).2 ≡ packet l e
      → (frame l ≤ length r.unread) × ((read trim_space r buf).0.unread ≡ drop (frame l) r.unread)
  unfolding read
  read_takes r buf {l} {e} h = elim (Bool-cases (ltb (length buf) 4)) [
    | inl short ↦ cc (rw short at h)
    | inr long ↦
        let (whole, fits, rest) =
          got_header-takes buf (read_full r 4).1 (read_full r 4).0 (read_full r 4).2
            (rw long at h) in
        let (four, behind) = read_full-four r whole in
        rw long (
          omega (arith, ap length behind, length-drop 4 r.unread),
          rest
              ∙ ap (drop (frame l - 4)) behind
              ∙ drop-drop 4 (frame l - 4) r.unread
              ∙ ap (λ k. drop k r.unread) (ground arith),
        )
  ]
