-- ===== src/Codec.antt =====
-- src/swlp/codec.py: the `.swz` container, a header with the magic, the raw size (u64), the SHA-256 of
-- the raw payload and the CRC-32 of the compressed one, then the compressed payload.
pub mod Library
pub mod RoundTrip
use swlp.Prelude.{
  ℕ, zero, suc, ◌+◌, ◌*◌, ◌/◌, ◌%◌, Bool, true, false, not, ◌&&◌, Option, none, some, List, [], ◌∷◌,
  ◌++◌, Result, ok, err, ◌>>=◌, ◌==◌, ltb, if◌then◌else◌, length, take, drop,
}
use swlp.Speculative.{same_tokens}
use swlp.Codec.Library

pub data CodecError : Type 0 where
  truncated bad_magic empty_payload crc_mismatch decode_failed size_mismatch sha_mismatch :
      CodecError
  -- `struct.error` of `pack`: the size does not fit in a u64
  not_packed : CodecError

-- b"SWZ1"
abbrev pub magic : List ℕ
magic = 83 ∷ 87 ∷ 90 ∷ 49 ∷ []

-- A little-endian number of `w` bytes, and back.
abbrev pub le_bytes : ℕ → ℕ → List ℕ
le_bytes zero v = []
le_bytes (suc w) v = v % 256 ∷ le_bytes w (v / 256)

abbrev pub of_le : List ℕ → ℕ
of_le [] = 0
of_le (b ∷ bs) = b + 256 * of_le bs

unfoldable pub is_swz : List ℕ → Bool
is_swz blob = same_tokens (take 4 blob) magic

module _ (lib : Library.Library) where
  open lib use {crc32, sha256, zip, unzip}

  abbrev pub pack_header : ℕ → List ℕ → ℕ → List ℕ
  pack_header raw_size digest crc = magic ++ (le_bytes 8 raw_size ++ (digest ++ le_bytes 4 crc))

  -- `_HEADER.size` is 48; the fields lie at 4, 12 and 44.
  unfoldable pub parse_header : List ℕ → Result CodecError (ℕ × List ℕ × ℕ)
  parse_header blob =
      let after_magic = drop 4 blob in
      let after_size = drop 8 after_magic in
      let after_digest = drop 32 after_size in
      if ltb (length blob) 48
      then err truncated
      else if same_tokens (take 4 blob) magic
      then ok (of_le (take 8 after_magic), take 32 after_size, of_le (take 4 after_digest))
      else err bad_magic

  unfoldable pub decompressed_size : List ℕ → Result CodecError ℕ
  decompressed_size blob = parse_header blob >>= λ h. ok h.0

  abbrev pub decoded : Bool → ℕ → List ℕ → Option (List ℕ) → Result CodecError (List ℕ)
  decoded check_sha raw_size digest none = err decode_failed
  decoded check_sha raw_size digest (some out) =
      if not (length out == raw_size)
      then err size_mismatch
      else if check_sha && not (same_tokens (sha256 out) digest)
      then err sha_mismatch
      else ok out

  abbrev pub checked :
      Bool → List ℕ → Result CodecError (ℕ × List ℕ × ℕ) → Result CodecError (List ℕ)
  checked check_sha payload (err e) = err e
  checked check_sha payload (ok (raw_size, digest, crc)) =
      if not (crc32 payload == crc)
      then err crc_mismatch
      else decoded check_sha raw_size digest (unzip payload)

  unfoldable pub decompress_bytes : Bool → List ℕ → Result CodecError (List ℕ)
  decompress_bytes check_sha blob = checked check_sha (drop 48 blob) (parse_header blob)

  abbrev pub verified : List ℕ → List ℕ → Result CodecError (List ℕ) → Result CodecError (List ℕ)
  verified out digest (err e) = err e
  verified out digest (ok restored) =
      if same_tokens (sha256 restored) digest then ok out else err sha_mismatch

  unfoldable pub compress_bytes : Bool → List ℕ → Result CodecError (List ℕ)
  compress_bytes verify [] = err empty_payload
  compress_bytes verify (b ∷ bs) =
      let raw = b ∷ bs in
      let digest = sha256 raw in
      let blob = zip raw in
      let out = pack_header (length raw) digest (crc32 blob) ++ blob in
      if ltb (length raw) 18446744073709551616
      then if verify then verified out digest (decompress_bytes false out) else ok out
      else err not_packed

  abbrev pub is_ok : Result CodecError (List ℕ) → Bool
  is_ok (ok out) = true
  is_ok (err e) = false

  unfoldable pub verify_blob : List ℕ → Bool
  verify_blob blob = is_ok (decompress_bytes true blob)
