-- ===== src/Codec/RoundTrip.antt =====
-- The round trip of src/swlp/codec.py.
use swlp.Prelude.{
  ℕ, zero, suc, ◌+◌, ◌/◌, ◌<◌, ◌≡◌, refl, sym, ap, ap₂, ◌∙◌, Bool, true, false, some, List, [], ◌∷◌,
  ◌++◌, append_assoc, ok, arith, ==_iff, ltb, if◌then◌else◌, length, take, drop, length-append,
  take-append_left,
}
use swlp.Speculative.{same_tokens}
use swlp.Speculative.Ngram.{same_tokens_iff}
use swlp.Codec.Library
use swlp.Codec.{
  le_bytes, of_le, pack_header, parse_header, checked, decompress_bytes, verified, compress_bytes,
  is_ok, verify_blob,
}

-- The number fits in `w` bytes.
abbrev Fits : ℕ → ℕ → Type 0
Fits zero v = v ≡ 0
Fits (suc w) v = Fits w (v / 256)

of_le-le_bytes : (w v : ℕ) → Fits w v → of_le (le_bytes w v) ≡ v
of_le-le_bytes zero v fits = sym fits
of_le-le_bytes (suc w) v fits = omega (arith, of_le-le_bytes w (v / 256) fits)

take-append : (n : ℕ) (xs ys : List ℕ) → length xs ≡ n → take n (xs ++ ys) ≡ xs
take-append n xs ys e = ap (λ k. take k (xs ++ ys)) (sym e) ∙ take-append_left xs ys

drop-append : (n : ℕ) (xs ys : List ℕ) → length xs ≡ n → drop n (xs ++ ys) ≡ ys
drop-append n [] ys e = ap (λ k. drop k ys) (sym e)
drop-append n (x ∷ xs) ys e =
    ap (λ k. drop k (x ∷ (xs ++ ys))) (sym e) ∙ drop-append (length xs) xs ys refl

same_tokens_self : (xs : List ℕ) → same_tokens xs xs ≡ true
same_tokens_self xs = (same_tokens_iff xs xs).1 refl

module _ (lib : Library.Library) where
  open lib use {crc32, sha256, zip, unzip}

  -- A packed header is read back, whatever payload follows.
  parse_header-pack_header :
      (size crc : ℕ) (digest payload : List ℕ)
      → Fits 8 size
      → Fits 4 crc
      → length digest ≡ 32
      → (parse_header lib (pack_header lib size digest crc ++ payload) ≡ ok (size, digest, crc))
        × (drop 48 (pack_header lib size digest crc ++ payload) ≡ payload)
  unfolding parse_header same_tokens
  parse_header-pack_header size crc digest payload fits fits' e =
      let rest = (digest ++ le_bytes 4 crc) ++ payload in
      let tail : (digest ++ le_bytes 4 crc) ++ payload ≡ digest ++ (le_bytes 4 crc ++ payload) =
        append_assoc digest (le_bytes 4 crc) payload in
      let size_read : of_le (le_bytes 8 size) ≡ size = of_le-le_bytes 8 size fits in
      let crc_read : of_le (le_bytes 4 crc) ≡ crc = of_le-le_bytes 4 crc fits' in
      let digest_read : take 32 ((digest ++ le_bytes 4 crc) ++ payload) ≡ digest =
        ap (take 32) tail ∙ take-append 32 digest (le_bytes 4 crc ++ payload) e in
      let rest_read : drop 32 ((digest ++ le_bytes 4 crc) ++ payload) ≡ le_bytes 4 crc ++ payload =
        ap (drop 32) tail ∙ drop-append 32 digest (le_bytes 4 crc ++ payload) e in
      let size_of_rest : length ((digest ++ le_bytes 4 crc) ++ payload) ≡ 36 + length payload =
        omega (
          arith,
          length-append (digest ++ le_bytes 4 crc) payload,
          length-append digest (le_bytes 4 crc),
          e,
        ) in
      let long : ltb (length (pack_header lib size digest crc ++ payload)) 48 ≡ false =
        ground (arith, size_of_rest) in
      (
        rw long (
            ap ok (
              ap (λ a. (a, take 32 rest, of_le (take 4 (drop 32 rest)))) size_read
              ∙ ap (λ d. (size, d, of_le (take 4 (drop 32 rest)))) digest_read
              ∙ ap (λ c. (size, digest, c)) (ap (λ xs. of_le (take 4 xs)) rest_read ∙ crc_read))),
        drop-append 36 (digest ++ le_bytes 4 crc) payload
            (omega (arith, length-append digest (le_bytes 4 crc), e)),
      )

  decompress-packed :
      (check_sha : Bool) (raw payload : List ℕ)
      → length raw < 18446744073709551616
      → unzip payload ≡ some raw
      → decompress_bytes lib check_sha
          (pack_header lib (length raw) (sha256 raw) (crc32 payload) ++ payload)
        ≡ ok raw
  unfolding decompress_bytes
  decompress-packed check_sha raw payload small back =
      let (parsed, read) =
        parse_header-pack_header (length raw) (crc32 payload) (sha256 raw) payload (omega arith)
          (omega (arith, lib.crc32-lt payload)) (lib.length-sha256 raw) in
      ap₂ (checked lib check_sha) read parsed ∙ accepted check_sha
    where
      accepted :
          (c : Bool) → checked lib c payload (ok (length raw, sha256 raw, crc32 payload)) ≡ ok raw
      accepted true =
          rw
            (
              back,
              same_tokens_self (sha256 raw),
              (==_iff (crc32 payload) (crc32 payload)).1 refl,
              (==_iff (length raw) (length raw)).1 refl,
            )
            refl
      accepted false =
          rw
            (
              back,
              (==_iff (crc32 payload) (crc32 payload)).1 refl,
              (==_iff (length raw) (length raw)).1 refl,
            )
            refl

  -- If zipnn restores what it compressed, a nonempty payload below 2 ^ 64 bytes is compressed without
  -- an error, verified or not, and the container decompresses to the payload itself, with and
  -- without the check of the SHA-256; the offline check accepts it.
  pub compress-decompress :
      (verify check_sha : Bool) (b : ℕ) (bs : List ℕ)
      → length (b ∷ bs) < 18446744073709551616
      → unzip (zip (b ∷ bs)) ≡ some (b ∷ bs)
      → (out : List ℕ) × (compress_bytes lib verify (b ∷ bs) ≡ ok out)
        × (decompress_bytes lib check_sha out ≡ ok (b ∷ bs))
        × (verify_blob lib out ≡ true)
  unfolding compress_bytes verify_blob
  compress-decompress verify check_sha b bs small back =
      let raw = b ∷ bs in
      let out = pack_header lib (length raw) (sha256 raw) (crc32 (zip raw)) ++ zip raw in
      let fits : ltb (length raw) 18446744073709551616 ≡ true = ground arith in
      let opened = λ (c : Bool). decompress-packed c raw (zip raw) small back in
      (
        out,
        rw fits (by_verify verify (opened false)),
        opened check_sha,
        ap (is_ok lib) (opened true),
      )
    where
      by_verify :
          (v : Bool)
          → decompress_bytes lib false (
              pack_header lib (length (b ∷ bs)) (sha256 (b ∷ bs)) (crc32 (zip (b ∷ bs)))
              ++ zip (b ∷ bs))
            ≡ ok (b ∷ bs)
          → (if v
              then verified lib
                  (pack_header lib (length (b ∷ bs)) (sha256 (b ∷ bs)) (crc32 (zip (b ∷ bs)))
                    ++ zip (b ∷ bs))
                  (sha256 (b ∷ bs))
                  (decompress_bytes lib false (
                    pack_header lib (length (b ∷ bs)) (sha256 (b ∷ bs)) (crc32 (zip (b ∷ bs)))
                    ++ zip (b ∷ bs)))
              else ok (
                  pack_header lib (length (b ∷ bs)) (sha256 (b ∷ bs)) (crc32 (zip (b ∷ bs)))
                  ++ zip (b ∷ bs)))
            ≡ ok (
                pack_header lib (length (b ∷ bs)) (sha256 (b ∷ bs)) (crc32 (zip (b ∷ bs)))
                ++ zip (b ∷ bs))
      by_verify true e =
          ap (verified lib _ (sha256 (b ∷ bs))) e ∙ rw (same_tokens_self (sha256 (b ∷ bs))) refl
      by_verify false e = refl
