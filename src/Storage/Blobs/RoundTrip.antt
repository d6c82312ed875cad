-- ===== src/Storage/Blobs/RoundTrip.antt =====
-- What is put in a local blob store (src/modelguard/storage/local.py) is read back from it.
use modelguard.Base.{
  ℕ, zero, suc, ◌+◌, ◌≤◌, String, ◌≡◌, refl, ap, ◌∙◌, true, false, Option, some, List, [], ◌∷◌,
  ◌++◌, arith,
}
use modelguard.Base.{◌==◌, string_eq, ltb, length, length-append}
use modelguard.Base.Bytes.{Bytes}
use modelguard.Base.Dict.{get, set, get-set}
use modelguard.Base.Result.{ok, require-holds, bind_elim, ok-injective}
use modelguard.Hashing.{Node, file}
use modelguard.Storage.Blobs.{
  chunk_size, validate_sha256, open_regular_nofollow, read_chunk, chunks_of, receive,
  write_verified, LocalBlobStore, put, absent_or, get_to,
}

joined : List Bytes → Bytes
joined [] = []
joined (chunk ∷ chunks) = chunk ++ joined chunks

read_chunk-append :
    (n : ℕ) (bytes : Bytes) → (read_chunk n bytes).0 ++ (read_chunk n bytes).1 ≡ bytes
unfolding read_chunk
read_chunk-append zero bytes = refl
read_chunk-append (suc n) [] = refl
read_chunk-append (suc n) (b ∷ bytes) = ap (λ bs. b ∷ bs) (read_chunk-append n bytes)

length-read_chunk : (n : ℕ) (bytes : Bytes) → length (read_chunk n bytes).1 ≤ length bytes
unfolding read_chunk
length-read_chunk zero bytes = omega arith
length-read_chunk (suc n) [] = omega arith
length-read_chunk (suc n) (b ∷ bytes) = omega (arith, length-read_chunk n bytes)

-- The fuel is enough: all bytes are read.
joined-chunks_of :
    (n fuel : ℕ) (bytes : Bytes)
    → length bytes ≤ fuel
    → joined (chunks_of (suc n) fuel bytes) ≡ bytes
unfolding joined chunks_of read_chunk
joined-chunks_of n zero [] h = refl
joined-chunks_of n zero (b ∷ bytes) h = absurd (omega (arith, h))
joined-chunks_of n (suc fuel) [] h = refl
joined-chunks_of n (suc fuel) (b ∷ bytes) h =
    ap (λ rest. b ∷ ((read_chunk n bytes).0 ++ rest))
      (joined-chunks_of n fuel (read_chunk n bytes).1 (omega (arith, h, length-read_chunk n bytes)))
    ∙ ap (λ bs. b ∷ bs) (read_chunk-append n bytes)

receive-joined :
    (max_bytes written : ℕ) (chunks : List Bytes)
    → written + length (joined chunks) ≤ max_bytes
    → receive max_bytes written chunks ≡ ok (joined chunks)
unfolding receive joined
receive-joined max_bytes written [] h = refl
receive-joined max_bytes written (chunk ∷ chunks) h =
    let fits : ltb max_bytes (written + length chunk) ≡ false =
      ground (arith, h, length-append chunk (joined chunks)) in
    rw
      (
        fits,
        receive-joined max_bytes (written + length chunk) chunks
            (omega (arith, h, length-append chunk (joined chunks))),
      )
      refl

module _ (sha256 : Bytes → String) where
  write_verified-chunks_of :
      (n : ℕ) (content : Bytes) (digest : String) (max_bytes : ℕ)
      → sha256 content == digest ≡ true
      → length content ≤ max_bytes
      → write_verified sha256 (chunks_of (suc n) (length content) content) digest max_bytes
        ≡ ok content
  unfolding write_verified
  write_verified-chunks_of n content digest max_bytes same fits =
      let whole : joined (chunks_of (suc n) (length content) content) ≡ content =
        joined-chunks_of n (length content) content (omega arith) in
      let received =
        receive-joined max_bytes 0 (chunks_of (suc n) (length content) content)
          (omega (arith, fits, ap length whole)) in
      rw (received, whole, same) refl

  -- Where a put succeeds, the source was a regular file with these bytes, and every later read that
  -- allows so many of them returns them.
  pub get_to-put :
      (store store' : LocalBlobStore sha256) (digest : String) (source : Option Node)
      → put sha256 store digest source ≡ ok store'
      → (content : Bytes) × (open_regular_nofollow source ≡ ok content)
        × ((max_bytes : ℕ)
            → length content ≤ max_bytes
            → get_to sha256 store' digest max_bytes ≡ ok content)
  unfolding put get_to
  get_to-put store store' digest source h = bind_elim (validate_sha256 digest) _ h λ _ valid h1.
      bind_elim (open_regular_nofollow source) _ h1 λ content opened h2.
        let (same, stored) = require-holds (sha256 content == digest) _ _ store' h2 in
        (
          content,
          opened,
          λ max_bytes fits.
              rw (valid, ← ok-injective stored, set_get store digest content)
                (kept content digest max_bytes same fits),
        )
    where
      set_get :
          (d : LocalBlobStore sha256) (digest : String) (content : Bytes)
          → get (set d digest (file content)) digest ≡ some (file content)
      set_get d digest content = ground (arith, get-set d digest digest (file content))

      kept :
          (content : Bytes) (digest : String) (max_bytes : ℕ)
          → sha256 content == digest ≡ true
          → length content ≤ max_bytes
          → absent_or sha256 (some (file content)) (
              write_verified sha256
                (chunks_of chunk_size (length content) content)
                digest
                max_bytes)
            ≡ ok content
      kept content digest max_bytes same fits =
          write_verified-chunks_of 1048575 content digest max_bytes same fits
