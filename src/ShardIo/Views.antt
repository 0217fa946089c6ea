-- ===== src/ShardIo/Views.antt =====
-- The tensors of a shard that src/swlp/core/shard_io.py reads into a buffer with other bytes behind it.
use swlp.Prelude.{
  ℕ, ◌+◌, ◌-◌, ◌≤◌, ◌<◌, Bool, true, false, Option, none, some, List, [], ◌∷◌, ◌≡◌, refl, sym, ap,
  ap₂, subst, ◌∙◌, Result, ok, err, ltb, if◌then◌else◌, length, take, drop, slice, arith, if_congr,
  take-take, drop-take,
}
use swlp.Codec.{of_le, CodecError, compress_bytes, decompress_bytes}
use swlp.Codec.Library
use swlp.Codec.RoundTrip.{compress-decompress}
use swlp.ShardIo.{
  TensorInfo, Parser, added, tensor_views, with_start, read_header, views_at,
  parse_safetensors_views, payload_of, decompressed, read_shard_payload, parsed, read_state,
  load_safetensors_shard,
}
use swlp.ShardIo.Fill.{read_into_tensor-Filled}
use swlp.ExpertBank.Ranges.{IsPread}

-- Every tensor of the header ends inside the file.
abbrev pub Inside : ℕ → ℕ → List TensorInfo → Type 0
Inside size data_start [] = Unit
Inside size data_start (info ∷ more) = (data_start + info.stop ≤ size) × Inside size data_start more

abbrev pub HeaderInside : ℕ → Option (ℕ × List TensorInfo) → Type 0
HeaderInside size none = Unit
HeaderInside size (some (data_start, infos)) = Inside size data_start infos

slice-take : (n a b : ℕ) (xs : List ℕ) → b ≤ n → slice a b (take n xs) ≡ slice a b xs
slice-take n a b xs inside =
    ap (take (b - a)) (drop-take a n xs) ∙ take-take (b - a) (n - a) (drop a xs) (omega arith)

abbrev from_ok : List ℕ → Result CodecError (List ℕ) → List ℕ
from_ok d (ok out) = out
from_ok d (err e) = d

module _ (parser : Parser) where
  open parser use {Tensor, loads, reinterpret}

  -- A file whose tensors lie inside it.
  abbrev pub IsSafetensors : List ℕ → Type 0
  IsSafetensors file = HeaderInside (length file) (read_header parser file (length file))

  tensor_views-take :
      (n : ℕ) (buffer : List ℕ) (data_start : ℕ) (infos : List TensorInfo)
      → Inside n data_start infos
      → tensor_views parser (take n buffer) data_start infos
        ≡ tensor_views parser buffer data_start infos
  unfolding tensor_views
  tensor_views-take n buffer data_start [] inside = refl
  tensor_views-take n buffer data_start (info ∷ more) (here, later) =
      ap₂ (λ raw rest. added parser info.name (reinterpret info.dtype info.shape raw) rest)
        (slice-take n (data_start + info.begin) (data_start + info.stop) buffer here)
        (tensor_views-take n buffer data_start more later)

  -- What lies behind the first `n` bytes of the buffer is not read.
  pub views_at-take :
      (n : ℕ) (buffer : List ℕ) (header : Option (ℕ × List TensorInfo))
      → HeaderInside n header
      → views_at parser (take n buffer) header ≡ views_at parser buffer header
  views_at-take n buffer none inside = refl
  views_at-take n buffer (some (data_start, infos)) inside =
      tensor_views-take n buffer data_start infos inside

  pub read_header-take :
      (n : ℕ) (buffer : List ℕ) → read_header parser buffer n ≡ read_header parser (take n buffer) n
  unfolding read_header
  read_header-take n buffer =
      let file = take n buffer in
      let d = 8 + of_le (take 8 file) in
      if_congr (ltb n 8) (λ short. refl)
        (λ long.
          let enough : 8 ≤ n = ground arith in
          let same : 8 + of_le (take 8 buffer) ≡ d =
            ap (λ h. 8 + of_le h) (sym (take-take 8 n buffer enough)) in
          ap (λ k. if ltb n k then some (0, []) else with_start parser k (loads (slice 8 k buffer)))
            same
          ∙ if_congr (ltb n d) (λ t. refl)
              (λ f.
                let fits : d ≤ n = ground arith in
                ap (λ h. with_start parser d (loads h)) (sym (slice-take n 8 d buffer fits))))

  -- A buffer that begins with the file is parsed as the file itself.
  parse_filled :
      (file out : List ℕ)
      → take (length file) out ≡ file
      → IsSafetensors file
      → parse_safetensors_views parser out (length file)
        ≡ parse_safetensors_views parser file (length file)
  unfolding parse_safetensors_views
  parse_filled file out holds inside =
      let n = length file in
      let header = read_header parser file n in
      let same : read_header parser out n ≡ header =
        read_header-take n out ∙ ap (λ f. read_header parser f n) holds in
      ap (views_at parser out) same
      ∙ (sym (views_at-take n out header inside) ∙ ap (λ f. views_at parser f header) holds)

  module _ (lib : Library.Library) (fresh : ℕ → List ℕ) (empty : (n : ℕ) → length (fresh n) ≡ n)
      (readinto : ℕ → ℕ → ℕ → List ℕ) where
    read_state_plain :
        (file : List ℕ)
        → IsPread readinto file
        → IsSafetensors file
        → (buffer : Option (List ℕ))
        → read_state lib fresh readinto parser false buffer (length file)
          ≡ parse_safetensors_views parser file (length file)
    unfolding read_state read_shard_payload
    read_state_plain file reads inside buffer =
        let full = read_into_tensor-Filled readinto file reads fresh buffer empty in
        ap (λ r. parsed parser (payload_of lib false r)) full.returns
        ∙ parse_filled file full.out full.holds inside

    read_state_swz :
        (file raw : List ℕ)
        → IsPread readinto file
        → decompress_bytes lib false file ≡ ok raw
        → (buffer : Option (List ℕ))
        → read_state lib fresh readinto parser true buffer (length file)
          ≡ parse_safetensors_views parser raw (length raw)
    unfolding read_state read_shard_payload
    read_state_swz file raw reads opened buffer =
        let full = read_into_tensor-Filled readinto file reads fresh buffer empty in
        ap (λ r. parsed parser (payload_of lib true r)) full.returns
        ∙ ap (λ r. parsed parser (decompressed full.out r))
            (ap (decompress_bytes lib false) full.holds ∙ opened)

    -- Let a file's tensors lie inside it, let each `readinto` deliver the next bytes, one at least before
    -- the end of the file, and let a new buffer have the size that it is asked for. Whatever buffer an
    -- earlier read has left and whatever it still holds, the streaming path finds the tensors that the
    -- standalone load of the file finds, and both are those of the file's own bytes.
    pub read_state-load_safetensors_shard :
        (file : List ℕ)
        → IsPread readinto file
        → IsSafetensors file
        → (buffer : Option (List ℕ))
        → (read_state lib fresh readinto parser false buffer (length file)
            ≡ load_safetensors_shard lib fresh readinto parser false (length file))
          × (load_safetensors_shard lib fresh readinto parser false (length file)
              ≡ parse_safetensors_views parser file (length file))
    unfolding read_state load_safetensors_shard
    read_state-load_safetensors_shard file reads inside buffer =
        let alone = read_state_plain file reads inside none in
        (read_state_plain file reads inside buffer ∙ sym alone, alone)

    -- Let zipnn restore what it compressed, let a nonempty shard below 2 ^ 64 bytes be compressed to the
    -- bytes of `file`, and let each `readinto` deliver the next bytes,
    -- one at least before the end of the file, and a new buffer have its size. The streaming path finds in `file`,
    -- through any buffer, the tensors of the bytes before the compression.
    pub read_state-compress_bytes :
        (verify : Bool) (b : ℕ) (bs file : List ℕ)
        → length (b ∷ bs) < 18446744073709551616
        → lib.unzip (lib.zip (b ∷ bs)) ≡ some (b ∷ bs)
        → compress_bytes lib verify (b ∷ bs) ≡ ok file
        → IsPread readinto file
        → (buffer : Option (List ℕ))
        → read_state lib fresh readinto parser true buffer (length file)
          ≡ parse_safetensors_views parser (b ∷ bs) (length (b ∷ bs))
    read_state-compress_bytes verify b bs file small back made reads buffer =
        let (out, made_out, opened, accepted) =
          compress-decompress lib verify false b bs small back in
        let same : out ≡ file = ap (from_ok out) (sym made_out ∙ made) in
        read_state_swz file (b ∷ bs) reads
          (subst (λ f. decompress_bytes lib false f ≡ ok (b ∷ bs)) same opened) buffer
