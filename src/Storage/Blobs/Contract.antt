-- ===== src/Storage/Blobs/Contract.antt =====
-- What a blob store promises (src/modelguard/storage/protocol.py), and that the local one keeps it.
use modelguard.Base.{
  ℕ, ◌+◌, ◌≤◌, String, ◌≡◌, sym, ap, ◌∙◌, inl, inr, Option, none, some, List, [], ◌∷◌, arith,
}
use modelguard.Base.{◌==◌, string_eq, ltb, length, length-append, Bool-cases, text_eq}
use modelguard.Base.Bytes.{Bytes}
use modelguard.Base.Dict.{get}
use modelguard.Base.Result.{Result, ok, err, require-holds, bind_elim, ok-injective}
use modelguard.Exceptions.{Exception}
use modelguard.Hashing.{Node}
use modelguard.Storage.Blobs.{
  chunk_size, validate_sha256, open_regular_nofollow, chunks_of, receive, write_verified,
  LocalBlobStore, exists, put, absent_or, get_to, BlobStore,
}

-- A read yields bytes of the digest asked for, and no more of them than allowed.
pub record IsVerifying {ℓ} (sha256 : Bytes → String) {S : Type ℓ} (store : BlobStore S)
    : Type ℓ where
  pub genuine :
      (s : S) (digest : String) (max_bytes : ℕ) (content : Bytes)
      → store.get_blob s digest max_bytes ≡ ok content
      → sha256 content ≡ digest
  pub bounded :
      (s : S) (digest : String) (max_bytes : ℕ) (content : Bytes)
      → store.get_blob s digest max_bytes ≡ ok content
      → length content ≤ max_bytes

receive-length :
    (max_bytes written : ℕ) (chunks : List Bytes) (content : Bytes)
    → written ≤ max_bytes
    → receive max_bytes written chunks ≡ ok content
    → written + length content ≤ max_bytes
unfolding receive
receive-length max_bytes written [] content start h =
    omega (arith, start, ap length (ok-injective h))
receive-length max_bytes written (chunk ∷ chunks) content start h =
    elim (Bool-cases (ltb max_bytes (written + length chunk))) [
      | inl over ↦ absurd (let k = rw (over, receive) at h in cc)
      | inr within ↦
          bind_elim (receive max_bytes (written + length chunk) chunks) _
            (rw (within, receive) at h)
            λ more at_more h1. omega (
              arith,
              receive-length max_bytes (written + length chunk) chunks more (ground (arith, within))
                  at_more,
              length-append chunk more,
              ap length (ok-injective h1),
            )
    ]

module _ (sha256 : Bytes → String) where
  write_verified_sound :
      (chunks : List Bytes) (expected : String) (max_bytes : ℕ) (content : Bytes)
      → write_verified sha256 chunks expected max_bytes ≡ ok content
      → (sha256 content ≡ expected) × (length content ≤ max_bytes)
  unfolding write_verified
  write_verified_sound chunks expected max_bytes content h =
      bind_elim (receive max_bytes 0 chunks) _ h λ found at_found h1.
        let (same, returned) = require-holds (sha256 found == expected) _ _ content h1 in
        let e : found ≡ content = ok-injective returned in
        (
          ap sha256 (sym e) ∙ text_eq (sha256 found) expected same,
          omega
              (arith, receive-length max_bytes 0 chunks found (omega arith) at_found, ap length e),
        )

  absent_or-ok :
      (place : Option Node) (r : Result Exception Bytes) (content : Bytes)
      → absent_or sha256 place r ≡ ok content
      → r ≡ ok content
  unfolding absent_or
  absent_or-ok none (ok c) content h = h
  absent_or-ok none (err e) content h = absurd (ground (arith, h))
  absent_or-ok (some node) r content h = h

  get_to_sound :
      (store : LocalBlobStore sha256) (digest : String) (max_bytes : ℕ) (content : Bytes)
      → get_to sha256 store digest max_bytes ≡ ok content
      → (sha256 content ≡ digest) × (length content ≤ max_bytes)
  unfolding get_to
  get_to_sound store digest max_bytes content h = bind_elim (validate_sha256 digest) _ h λ _ _ h1.
      bind_elim (open_regular_nofollow (get store digest)) _
        (absent_or-ok (get store digest) _ content h1)
        λ raw _ h2.
          write_verified_sound (chunks_of chunk_size (length raw) raw) digest max_bytes content h2

  -- The local store behind the protocol.
  abbrev pub local_store : BlobStore (LocalBlobStore sha256)
  local_store = record { has_blob = exists sha256; put_blob = put sha256; get_blob = get_to sha256 }

  pub local_store-IsVerifying : IsVerifying sha256 local_store
  local_store-IsVerifying = record {
    genuine = λ s digest max_bytes content h. (get_to_sound s digest max_bytes content h).0;
    bounded = λ s digest max_bytes content h. (get_to_sound s digest max_bytes content h).1;
  }
