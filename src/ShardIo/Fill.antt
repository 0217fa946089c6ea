-- ===== src/ShardIo/Fill.antt =====
-- The loop of `read_into_tensor` of src/swlp/core/shard_io.py, with any reads that `readinto` may return.
use swlp.Prelude.{
  ℕ, zero, suc, ◌+◌, ◌-◌, ◌≤◌, ◌<◌, min, Option, none, some, List, ◌++◌, ◌≡◌, refl, sym, ap, ap₂,
  subst, ◌∙◌, ◌==◌, ltb, if◌then◌else◌, length, take, drop, arith, if-all, append_assoc,
  length-append, length-take, length-drop, take-append_left, take_of_length-le,
}
use swlp.ShardIo.{splice, chosen, read_loop, read_into_tensor}
use swlp.ExpertBank.Ranges.{IsPread, length-range_of, take-add}

pub length-splice :
    (buffer : List ℕ) (got : ℕ) (bytes : List ℕ)
    → got + length bytes ≤ length buffer
    → length (splice buffer got bytes) ≡ length buffer
length-splice buffer got bytes fits = omega (
  arith,
  length-append (take got buffer) (bytes ++ drop (got + length bytes) buffer),
  length-append bytes (drop (got + length bytes) buffer),
  length-take got buffer,
  length-drop (got + length bytes) buffer,
)

pub take-splice :
    (buffer : List ℕ) (got : ℕ) (bytes : List ℕ)
    → got ≤ length buffer
    → take (got + length bytes) (splice buffer got bytes) ≡ take got buffer ++ bytes
take-splice buffer got bytes fits =
    let before = take got buffer in
    let rest = drop (got + length bytes) buffer in
    let size : got + length bytes ≡ length (before ++ bytes) =
      omega (arith, length-append before bytes, length-take got buffer) in
    ap₂ take size (sym (append_assoc before bytes rest)) ∙ take-append_left (before ++ bytes) rest

-- The buffer holds the first `got` bytes of the file.
module _ (readinto : ℕ → ℕ → ℕ → List ℕ) (file : List ℕ) (reads : IsPread readinto file) where
  -- A call before the end of the file delivers the next bytes of it.
  delivered :
      (call got : ℕ)
      → got < length file
      → (0 < length (readinto call got (length file - got)))
        × (got + length (readinto call got (length file - got)) ≤ length file)
        × (take got file ++ readinto call got (length file - got)
            ≡ take (got + length (readinto call got (length file - got))) file)
  delivered call got before =
      let room = length file - got in
      let c = reads.count call got room in
      let limit = reads.within call got room in
      let left : 0 < room = omega arith in
      let asked = reads.some_bytes call got room left in
      let sizes = length-range_of file got c in
      let n : length (readinto call got room) ≡ min c (length file - got) =
        ap length (reads.bytes call got room) ∙ sizes in
      let c_size : c ≡ length (readinto call got room) = omega arith in
      (
        omega arith,
        omega arith,
        ap (λ b. take got file ++ b) (reads.bytes call got room)
            ∙ (take-add got c file (omega arith) ∙ ap (λ k. take (got + k) file) c_size),
      )

  pub record Filled (buffer : List ℕ) (result : Option (List ℕ × ℕ)) : Type 0 where
    pub out : List ℕ
    pub returns : result ≡ some (out, length file)
    pub holds : take (length file) out ≡ file
    pub same_size : length out ≡ length buffer

  Filled-all :
      (buffer : List ℕ) (got : ℕ)
      → got ≤ length file
      → take got buffer ≡ take got file
      → length file ≤ got
      → Filled buffer (some (buffer, got))
  Filled-all buffer got within same over =
      let e : got ≡ length file = omega arith in
      record {
        out = buffer;
        returns = ap (λ k. some (buffer, k)) e;
        holds =
            subst (λ k. take k buffer ≡ take k file) e same
            ∙ take_of_length-le (length file) file (omega arith);
        same_size = refl;
      }

  read_loop-Filled :
      (fuel call : ℕ) (buffer : List ℕ) (got : ℕ)
      → got ≤ length file
      → length file ≤ length buffer
      → length file - got ≤ fuel
      → take got buffer ≡ take got file
      → Filled buffer (read_loop readinto fuel call buffer (length file) got)
  unfolding read_loop
  read_loop-Filled zero call buffer got within fits enough same =
      if-all (λ r. Filled buffer r) (ltb got (length file)) none (some (buffer, got))
        (λ t. absurd (ground arith)) (λ f. Filled-all buffer got within same (ground arith))
  read_loop-Filled (suc fuel) call buffer got within fits enough same =
      let size = length file in
      let bytes = readinto call got (size - got) in
      let next = splice buffer got bytes in
      let rest = read_loop readinto fuel (suc call) next size (got + length bytes) in
      let round = if length bytes == 0 then some (buffer, got) else rest in
      if-all (λ r. Filled buffer r) (ltb got size) round (some (buffer, got))
        (λ t.
          let before : got < size = ground arith in
          let (came, inside, joined) = delivered call got before in
          if-all (λ r. Filled buffer r) (length bytes == 0) (some (buffer, got)) rest
            (λ z. let nothing : length bytes ≡ 0 = ground arith in absurd (omega arith))
            (λ n.
              let fits_next : got + length bytes ≤ length buffer = omega arith in
              let sized = length-splice buffer got bytes fits_next in
              let full =
                read_loop-Filled fuel (suc call) next (got + length bytes) inside (omega arith)
                  (omega arith)
                  (take-splice buffer got bytes (omega arith)
                    ∙ (ap (λ b. b ++ bytes) same ∙ joined)) in
              record {
                out = full.out;
                returns = full.returns;
                holds = full.holds;
                same_size = full.same_size ∙ sized;
              }))
        (λ f. Filled-all buffer got within same (ground arith))

  chosen_size :
      (fresh : ℕ → List ℕ) (buffer : Option (List ℕ)) (size : ℕ)
      → ((n : ℕ) → length (fresh n) ≡ n)
      → size ≤ length (chosen fresh buffer size)
  chosen_size fresh none size empty = let e = empty size in omega arith
  chosen_size fresh (some buffer) size empty =
      let e = empty size in
      if-all (λ b. size ≤ length b) (ltb (length buffer) size) (fresh size) buffer
        (λ t. omega arith) (λ f. ground arith)

  -- Whatever number of bytes each `readinto` delivers and whatever the buffer held, `read_into_tensor`
  -- ends: the buffer that it returns, which has the size of the one chosen, begins with the bytes of
  -- the file, and the size that it returns is the file's.
  pub read_into_tensor-Filled :
      (fresh : ℕ → List ℕ) (buffer : Option (List ℕ))
      → ((n : ℕ) → length (fresh n) ≡ n)
      → Filled
          (chosen fresh buffer (length file))
          (read_into_tensor fresh readinto buffer (length file))
  unfolding read_into_tensor
  read_into_tensor-Filled fresh buffer empty =
      read_loop-Filled (length file) 0 (chosen fresh buffer (length file)) 0 (omega arith)
        (chosen_size fresh buffer (length file) empty) (omega arith) refl
