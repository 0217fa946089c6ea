-- ===== src/ShardIo.antt =====
-- src/swlp/core/shard_io.py: a shard is read into a buffer that is used again for the next one, and its
-- tensors are views of that buffer. A file is the list of its bytes; a buffer has one byte or more for
-- each. What `readinto` delivers and fresh memory holds are parameters, and so are the JSON of a
-- header and the reinterpretation of bytes by torch.
pub mod Fill
pub mod Views
use swlp.Prelude.{
  ℕ, zero, suc, ◌+◌, ◌-◌, Bool, true, false, Option, none, some, List, [], ◌∷◌, ◌++◌, Result, ok,
  err, ◌==◌, ltb, if◌then◌else◌, length, take, drop, slice,
}
use swlp.Codec.{CodecError, of_le, decompress_bytes}
use swlp.Codec.Library

-- `view[at : at + len(bytes)] = bytes`
abbrev pub splice : List ℕ → ℕ → List ℕ → List ℕ
splice buffer position bytes =
    take position buffer ++ (bytes ++ drop (position + length bytes) buffer)

-- `fresh n` is the memory that `torch.empty(n)` finds.
abbrev pub chosen : (ℕ → List ℕ) → Option (List ℕ) → ℕ → List ℕ
chosen fresh none size = fresh size
chosen fresh (some buffer) size = if ltb (length buffer) size then fresh size else buffer

-- The `call`-th `readinto` of a file delivers the bytes `readinto call position room`.
module _ (readinto : ℕ → ℕ → ℕ → List ℕ) where
  -- The loop of `read_into_tensor` on fuel; `none` means that the fuel ran out.
  unfoldable pub read_loop : ℕ → ℕ → List ℕ → ℕ → ℕ → Option (List ℕ × ℕ)
  read_loop zero call buffer size got = if ltb got size then none else some (buffer, got)
  read_loop (suc fuel) call buffer size got =
      let bytes = readinto call got (size - got) in
      let rest = read_loop fuel (suc call) (splice buffer got bytes) size (got + length bytes) in
      if ltb got size
      then if length bytes == 0 then some (buffer, got) else rest
      else some (buffer, got)

-- `size` is the file's size; a call delivers a byte or ends the loop, so `size` rounds are enough.
unfoldable pub read_into_tensor :
    (ℕ → List ℕ) → (ℕ → ℕ → ℕ → List ℕ) → Option (List ℕ) → ℕ → Option (List ℕ × ℕ)
read_into_tensor fresh readinto buffer size =
    read_loop readinto size 0 (chosen fresh buffer size) size 0

-- A value of a safetensors header, with its key.
pub record TensorInfo : Type 0 where
  pub name : ℕ
  pub dtype : ℕ
  pub shape : List ℕ
  pub begin : ℕ
  pub stop : ℕ

-- What `json.loads` finds in the bytes of a header, without its metadata, and what `view` and `reshape`
-- make of a tensor's bytes; `none` where they raise.
pub record Parser : Type 1 where
  pub Tensor : Type 0
  pub loads : List ℕ → Option (List TensorInfo)
  pub reinterpret : ℕ → List ℕ → List ℕ → Option Tensor

module _ (parser : Parser) where
  open parser use {Tensor, loads, reinterpret}

  abbrev pub added : ℕ → Option Tensor → Option (List (ℕ × Tensor)) → Option (List (ℕ × Tensor))
  added name (some t) (some more) = some ((name, t) ∷ more)
  added name (some t) none = none
  added name none more = none

  -- The loop over the header.
  unfoldable pub tensor_views : List ℕ → ℕ → List TensorInfo → Option (List (ℕ × Tensor))
  tensor_views buffer data_start [] = some []
  tensor_views buffer data_start (info ∷ more) =
      added info.name
        (reinterpret info.dtype info.shape
          (slice (data_start + info.begin) (data_start + info.stop) buffer))
        (tensor_views buffer data_start more)

  abbrev pub with_start : ℕ → Option (List TensorInfo) → Option (ℕ × List TensorInfo)
  with_start data_start none = none
  with_start data_start (some infos) = some (data_start, infos)

  -- Where the tensors start, and the header; a file that is too short has no tensors.
  unfoldable pub read_header : List ℕ → ℕ → Option (ℕ × List TensorInfo)
  read_header buffer size =
      let data_start = 8 + of_le (take 8 buffer) in
      if ltb size 8
      then some (0, [])
      else if ltb size data_start
      then some (0, [])
      else with_start data_start (loads (slice 8 data_start buffer))

  abbrev pub views_at : List ℕ → Option (ℕ × List TensorInfo) → Option (List (ℕ × Tensor))
  views_at buffer none = none
  views_at buffer (some (data_start, infos)) = tensor_views buffer data_start infos

  unfoldable pub parse_safetensors_views : List ℕ → ℕ → Option (List (ℕ × Tensor))
  parse_safetensors_views buffer size = views_at buffer (read_header buffer size)

  -- The tensors of what `read_shard_payload` returns.
  abbrev pub parsed : Option (List ℕ × ℕ × List ℕ) → Option (List (ℕ × Tensor))
  parsed none = none
  parsed (some (payload, size, buffer)) = parse_safetensors_views payload size

abbrev pub decompressed : List ℕ → Result CodecError (List ℕ) → Option (List ℕ × ℕ × List ℕ)
decompressed buffer (err e) = none
decompressed buffer (ok raw) = some (raw, length raw, buffer)

abbrev pub payload_of : Library.Library → Bool → Option (List ℕ × ℕ) → Option (List ℕ × ℕ × List ℕ)
payload_of lib swz none = none
payload_of lib true (some (buffer, size)) =
    decompressed buffer (decompress_bytes lib false (take size buffer))
payload_of lib false (some (buffer, size)) = some (buffer, size, buffer)

-- The payload, its size and the buffer of `read_shard_payload`; `err` is the codec's error.
module _ (lib : Library.Library) (fresh : ℕ → List ℕ) (readinto : ℕ → ℕ → ℕ → List ℕ) where
  unfoldable pub read_shard_payload : Bool → Option (List ℕ) → ℕ → Option (List ℕ × ℕ × List ℕ)
  read_shard_payload swz buffer size =
      payload_of lib swz (read_into_tensor fresh readinto buffer size)

  module _ (parser : Parser) where
    -- The streaming path, with the buffer of an earlier read, and the standalone load.
    unfoldable pub read_state : Bool → Option (List ℕ) → ℕ → Option (List (ℕ × parser.Tensor))
    read_state swz buffer size = parsed parser (read_shard_payload swz buffer size)

    unfoldable pub load_safetensors_shard : Bool → ℕ → Option (List (ℕ × parser.Tensor))
    load_safetensors_shard swz size = parsed parser (read_shard_payload swz none size)
