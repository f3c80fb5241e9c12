-- ===== src/Sideband/Mux.antt =====
-- plumbing/protocol/packp/sideband/common.go and muxer.go.
use ai_experimental_search.Base.{
  ℕ, zero, suc, ◌+◌, ◌-◌, Option, none, some, [], ◌∷◌, ltb, length, take, drop, if◌then◌else◌,
  Bytes,
}
use ai_experimental_search.Stream.{Error, Writer}
use ai_experimental_search.Pktline.Write.{write}

-- `other` stands for every value of the Go type but Sideband and Sideband64k.
pub data SidebandType : Type 0 where
  sideband sideband_64k other : SidebandType

abbrev pub max_packed_size : ℕ
max_packed_size = 1000

abbrev pub max_packed_size_64k : ℕ
max_packed_size_64k = 65520

abbrev pub pack_data : ℕ
pack_data = 1

abbrev pub progress_message : ℕ
progress_message = 2

abbrev pub error_message : ℕ
error_message = 3

abbrev pub ch_len : ℕ
ch_len = 1

-- A channel is a byte.
abbrev pub with_payload : ℕ → Bytes → Bytes
with_payload ch payload = ch ∷ payload

-- The limit that NewMuxer and NewDemuxer pick.
abbrev pub max_packed : SidebandType → ℕ
max_packed sideband = max_packed_size
max_packed _ = max_packed_size_64k

pub record Muxer : Type 0 where
  pub max : ℕ
  pub w : Option Writer

unfoldable pub new_muxer : SidebandType → Option Writer → Muxer
new_muxer t w = record { max = max_packed t - ch_len; w = w }

abbrev pub chunk : ℕ → Bytes → ℕ
chunk limit p = if ltb limit (length p) then limit else length p

unfoldable pub do_write : Muxer → ℕ → Bytes → Muxer × ℕ × Option Error
do_write m ch p =
    let sz = chunk m.max p in
    let (w', n, e) = write m.w (with_payload ch (take sz p)) in (record m { w = w' }, sz, e)

-- One round of the loop of WriteChannel: on an error it returns, else `more` goes on behind the chunk.
abbrev written_chunk :
    (Muxer → ℕ → Muxer × ℕ × Option Error) → ℕ → Muxer × ℕ × Option Error → Muxer × ℕ × Option Error
written_chunk more wrote (m, n, some e) = (m, wrote + n, some e)
written_chunk more wrote (m, n, none) = more m n

-- `p` is what is left to write; a round writes a byte at least, so `length p` rounds are enough.
unfoldable pub write_loop : ℕ → Muxer → ℕ → Bytes → ℕ → Muxer × ℕ × Option Error
write_loop fuel m ch [] wrote = (m, wrote, none)
write_loop zero m ch (b ∷ bs) wrote = (m, wrote, none)
write_loop (suc fuel) m ch (b ∷ bs) wrote =
    written_chunk (λ m' n. write_loop fuel m' ch (drop n (b ∷ bs)) (wrote + n)) wrote
      (do_write m ch (b ∷ bs))

unfoldable pub write_channel : Muxer → ℕ → Bytes → Muxer × ℕ × Option Error
unfolding write_loop
write_channel m ch p = write_loop (length p) m ch p 0

unfoldable pub write_pack : Muxer → Bytes → Muxer × ℕ × Option Error
unfolding write_channel
write_pack m p = write_channel m pack_data p
