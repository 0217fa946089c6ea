-- ===== src/Tests/Shards.antt =====
-- Shards of twelve bytes with one tensor of three, and buffers that are read into in parts.
use swlp.Prelude.{
  ℕ, ◌+◌, min, true, false, Option, some, List, [], ◌∷◌, ◌++◌, ◌≡◌, refl, ok, length, arith,
  replicate, length-replicate,
}
use swlp.Codec.{pack_header, compress_bytes}
use swlp.ShardIo.{
  Parser, TensorInfo, read_loop, read_into_tensor, tensor_views, read_header,
  parse_safetensors_views, read_shard_payload, read_state, load_safetensors_shard,
}
use swlp.ShardIo.Views.{IsSafetensors, read_state-load_safetensors_shard, read_state-compress_bytes}
use swlp.ExpertBank.Ranges.{IsPread, range_of}
use swlp.Streaming.Buffers.{
  Event, begin_read, deliver, end_read, upload, no_buffers, take_step, interleaved,
}
use swlp.Streaming.Interleaved.{interleaved-Exact}
use swlp.Streaming.Owned.{Exact}
use swlp.Tests.Containers.{toy_library}

-- The header is one byte; the only tensor has the number 7.
abbrev one_tensor : List ℕ → Option (List TensorInfo)
one_tensor header = some (record { name = 7; dtype = 0; shape = 3 ∷ []; begin = 0; stop = 3 } ∷ [])

abbrev raw_parser : Parser
raw_parser = record {
  Tensor = List ℕ;
  loads = one_tensor;
  reinterpret = λ dtype shape raw. some raw;
}

abbrev shard : ℕ → List ℕ
shard i = 1 ∷ 0 ∷ 0 ∷ 0 ∷ 0 ∷ 0 ∷ 0 ∷ 0 ∷ 99 ∷ i ∷ (i + 1) ∷ (i + 2) ∷ []

shard-IsSafetensors : (i : ℕ) → IsSafetensors raw_parser (shard i)
unfolding read_header
shard-IsSafetensors i = (omega arith, tt)

abbrev zeros : ℕ → List ℕ
zeros n = replicate n 0

length-zeros : (n : ℕ) → length (zeros n) ≡ n
length-zeros n = length-replicate n 0

-- Each call delivers at most five bytes.
abbrev by_fives : List ℕ → ℕ → ℕ → ℕ → List ℕ
by_fives file call position room = range_of file position (min room 5)

by_fives-IsPread : (file : List ℕ) → IsPread (by_fives file) file
by_fives-IsPread file = record {
  count = λ call position room. min room 5;
  bytes = λ call position room. refl;
  within = λ call position room. omega arith;
  some_bytes = λ call position room left. omega arith;
}

-- What an earlier read has left.
abbrev used : Option (List ℕ)
used = some (replicate 14 255)

read_state-load_safetensors_shard_example :
    (read_state toy_library zeros (by_fives (shard 4)) raw_parser false used 12
      ≡ load_safetensors_shard toy_library zeros (by_fives (shard 4)) raw_parser false 12)
    × (load_safetensors_shard toy_library zeros (by_fives (shard 4)) raw_parser false 12
        ≡ parse_safetensors_views raw_parser (shard 4) 12)
read_state-load_safetensors_shard_example =
    read_state-load_safetensors_shard raw_parser toy_library zeros length-zeros (by_fives (shard 4))
      (shard 4) (by_fives-IsPread (shard 4)) (shard-IsSafetensors 4) used

read_state_runs :
    read_state toy_library zeros (by_fives (shard 4)) raw_parser false used 12
    ≡ some ((7, 4 ∷ 5 ∷ 6 ∷ []) ∷ [])
unfolding read_state read_shard_payload read_into_tensor read_loop parse_safetensors_views
    read_header tensor_views
read_state_runs = refl

-- The bytes of `shard 4` after the first, and the file that the toy compressor makes of it.
abbrev tail : List ℕ
tail = 0 ∷ 0 ∷ 0 ∷ 0 ∷ 0 ∷ 0 ∷ 0 ∷ 99 ∷ 4 ∷ 5 ∷ 6 ∷ []

abbrev swz : List ℕ
swz = pack_header toy_library 12 (replicate 32 115) 116 ++ 1 ∷ 1 ∷ tail

compressed_swz : compress_bytes toy_library false (1 ∷ tail) ≡ ok swz
unfolding compress_bytes
compressed_swz = refl

read_state-compress_bytes_example :
    read_state toy_library zeros (by_fives swz) raw_parser true used (length swz)
    ≡ parse_safetensors_views raw_parser (1 ∷ tail) 12
read_state-compress_bytes_example =
    read_state-compress_bytes raw_parser toy_library zeros length-zeros (by_fives swz) false 1 tail
      swz (omega arith) refl compressed_swz (by_fives-IsPread swz) used

-- Two tasks take turns: the second begins while the first waits for its upload, and the buffer of the
-- first is used again for layer 2.
abbrev events : List Event
events =
    begin_read 0 0
    ∷ deliver 0 7
    ∷ begin_read 1 1
    ∷ deliver 1 12
    ∷ deliver 0 7
    ∷ end_read 0
    ∷ end_read 1
    ∷ upload 0
    ∷ begin_read 0 2
    ∷ deliver 0 12
    ∷ upload 1
    ∷ end_read 0
    ∷ upload 0
    ∷ []

interleaved-Exact_example :
    Exact raw_parser shard 2
      ((interleaved raw_parser zeros shard events (no_buffers raw_parser)).device 2)
interleaved-Exact_example =
    interleaved-Exact raw_parser shard zeros length-zeros shard-IsSafetensors events 2

interleaved_runs :
    (interleaved raw_parser zeros shard events (no_buffers raw_parser)).device 2
    ≡ some ((7, 2 ∷ 3 ∷ 4 ∷ []) ∷ [])
unfolding interleaved take_step read_header tensor_views
interleaved_runs = refl
