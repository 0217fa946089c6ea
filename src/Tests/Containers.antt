-- ===== src/Tests/Containers.antt =====
-- The codec's round trip with a toy checksum, digest and compressor.
use swlp.Prelude.{
  ℕ, ◌%◌, ◌≡◌, refl, true, Option, none, some, List, [], ◌∷◌, ok, arith, replicate,
  length-replicate,
}
use swlp.Codec.Library
use swlp.Codec.{compress_bytes, decompress_bytes, verify_blob}
use swlp.Codec.RoundTrip.{compress-decompress}
use swlp.Tests.Toy.{sum}

abbrev pub toy_unzip : List ℕ → Option (List ℕ)
toy_unzip [] = none
toy_unzip (b ∷ bs) = some bs

abbrev pub toy_library : Library.Library
toy_library = record {
  crc32 = λ b. sum b % 4294967296;
  sha256 = λ b. replicate 32 (sum b % 256);
  zip = λ b. 1 ∷ b;
  unzip = toy_unzip;
  crc32-lt = λ b. omega arith;
  length-sha256 = λ b. length-replicate 32 (sum b % 256);
}

compress-decompress_example :
    (out : List ℕ) × (compress_bytes toy_library true (5 ∷ 250 ∷ 9 ∷ []) ≡ ok out)
    × (decompress_bytes toy_library true out ≡ ok (5 ∷ 250 ∷ 9 ∷ []))
    × (verify_blob toy_library out ≡ true)
compress-decompress_example =
    compress-decompress toy_library true true 5 (250 ∷ 9 ∷ []) (omega arith) refl
