-- ===== src/Storage/Transfer/Downloads.antt =====
-- What a download of src/modelguard/storage/transfer.py leaves at its destination.
use mathlib.Core.Path.{subst}
use modelguard.Base.{
  ℕ, ◌≤◌, String, ◌≡◌, refl, sym, ap, Bool, true, false, ◌&&◌, ◌||◌, Option, List, [], ◌∷◌, arith,
}
use modelguard.Base.{◌==◌, string_eq, nat_eq, length, both, text_eq, if◌then◌else◌}
use modelguard.Base.Bytes.{Bytes}
use modelguard.Base.Result.{ok, require-holds, bind_elim, ok-injective}
use modelguard.Hashing.{
  FileDigest, ArtifactDigest, Node, digest_bytes, artifact_digest_from_files,
  canonical_manifest_bytes,
}
use modelguard.Storage.Blobs.{BlobStore, validate_sha256}
use modelguard.Storage.Blobs.Contract.{IsVerifying}
use modelguard.Storage.Manifests.{Value, parse_manifest, same_bytes}
use modelguard.Storage.Manifests.Accepted.{IsSafeManifest, parse_manifest-IsSafeManifest}
use modelguard.Storage.Transfer.{
  Tree, Artifact, one_file, tree, partition_colon, fetch_manifest, stage, tree_files,
  verify_rebuilt, download_tree, download_file, download_checked, download_artifact, is_absent,
  max_manifest_bytes,
}

nat_eq_holds : (m n : ℕ) → m == n ≡ true → m ≡ n
nat_eq_holds m n h = ground arith

module _ {ℓ} (sha256 : Bytes → String) (loads : Bytes → Option Value) {S : Type ℓ}
    (store : BlobStore S) (verifying : IsVerifying sha256 store) where
  -- The bytes are those of the digest: of a tree, the files are those of a safe manifest that has it.
  abbrev pub IsOfDigest : String → ℕ → ℕ → Artifact → Type 0
  IsOfDigest expected max_total_bytes max_files (one_file content) =
      (sha256 content ≡ expected) × (length content ≤ max_total_bytes)
  IsOfDigest expected max_total_bytes max_files (tree t) =
      (d : ArtifactDigest) × (artifact_digest_from_files sha256 "directory"
          (tree_files sha256 loads store t)
        ≡ ok d)
      × (d.digest ≡ expected)
      × IsSafeManifest max_files max_total_bytes (tree_files sha256 loads store t)

  stage-tree_files :
      (s : S) (files : List FileDigest) (t : Tree)
      → stage sha256 loads store s files ≡ ok t
      → tree_files sha256 loads store t ≡ files
  unfolding stage
  stage-tree_files s [] t h = ap (tree_files sha256 loads store) (sym (ok-injective h))
  stage-tree_files s (entry ∷ files) t h =
      bind_elim (store.get_blob s entry.sha256 entry.size) _ h λ content at_content h1.
        let (sized, h2) = require-holds (length content == entry.size) _ _ t h1 in
        bind_elim (stage sha256 loads store s files) _ h2 λ rest at_rest h3.
          let same : digest_bytes sha256 entry.path content ≡ entry = λ i. record {
            path = entry.path;
            sha256 = verifying.genuine s entry.sha256 entry.size content at_content i;
            size = nat_eq_holds (length content) entry.size sized i;
          } in
          rw (← ok-injective h3, stage-tree_files s files rest at_rest, same) refl

  fetched :
      (s : S) (expected : String) (max_files max_total_bytes : ℕ) (files : List FileDigest)
      → fetch_manifest sha256 loads store s expected max_files max_total_bytes ≡ ok files
      → IsSafeManifest max_files max_total_bytes files
        × ((d : ArtifactDigest) × (artifact_digest_from_files sha256 "directory" files ≡ ok d)
            × (d.digest ≡ expected))
  unfolding fetch_manifest
  fetched s expected max_files max_total_bytes files h =
      bind_elim (store.get_blob s expected max_manifest_bytes) _ h λ raw _ h1.
        bind_elim (parse_manifest loads raw max_files max_total_bytes) _ h1 λ found at_found h2.
          bind_elim (artifact_digest_from_files sha256 "directory" found) _ h2 λ d at_d h3.
            let (canonical, h4) =
              require-holds
                (d.digest == expected && same_bytes (canonical_manifest_bytes found) raw) _ _ files
                h3 in
            let e = ok-injective h4 in
            (
              subst (IsSafeManifest max_files max_total_bytes) e (
                  parse_manifest-IsSafeManifest loads raw max_files max_total_bytes found at_found),
              (
                d,
                rw (← e) at_d,
                text_eq d.digest expected (both (d.digest == expected) _ canonical).0,
              ),
            )

  download_file-IsOfDigest :
      (s : S) (expected : String) (max_total_bytes max_files : ℕ) (a : Artifact)
      → download_file sha256 loads store s expected max_total_bytes ≡ ok a
      → IsOfDigest expected max_total_bytes max_files a
  unfolding download_file
  download_file-IsOfDigest s expected max_total_bytes max_files a h =
      bind_elim (store.get_blob s expected max_total_bytes) _ h λ content at_content h1.
        subst (IsOfDigest expected max_total_bytes max_files) (ok-injective h1) (
          verifying.genuine s expected max_total_bytes content at_content,
          verifying.bounded s expected max_total_bytes content at_content,
        )

  download_tree-IsOfDigest :
      (s : S) (expected : String) (max_total_bytes max_files : ℕ) (verify_after : Bool)
      (a : Artifact)
      → download_tree sha256 loads store s expected max_total_bytes max_files verify_after ≡ ok a
      → IsOfDigest expected max_total_bytes max_files a
  unfolding download_tree
  download_tree-IsOfDigest s expected max_total_bytes max_files verify_after a h =
      bind_elim (fetch_manifest sha256 loads store s expected max_files max_total_bytes) _ h
        λ files at_files h1. bind_elim (stage sha256 loads store s files) _ h1 λ built at_built h2.
          bind_elim (verify_rebuilt sha256 loads store built expected verify_after) _ h2 λ _ _ h3.
            let (safe, (d, made, same)) =
              fetched s expected max_files max_total_bytes files at_files in
            let e = stage-tree_files s files built at_built in
            subst (IsOfDigest expected max_total_bytes max_files) (ok-injective h3)
              (d, rw e made, same, rw e safe)

  -- Whatever a download leaves at its destination has the digest that was asked for, keeps within the
  -- limits and, if it is a tree, has safe paths only; and nothing was at the destination before.
  pub download_artifact-IsOfDigest :
      (s : S) (artifact_digest artifact_type : String) (dest : Option Node)
      (max_total_bytes max_files : ℕ) (verify_after : Bool) (a : Artifact)
      → download_artifact sha256 loads store s artifact_digest artifact_type dest max_total_bytes
          max_files verify_after
        ≡ ok a
      → IsOfDigest (partition_colon artifact_digest).1 max_total_bytes max_files a
        × (is_absent dest ≡ true)
  unfolding download_artifact download_checked
  download_artifact-IsOfDigest s artifact_digest artifact_type dest max_total_bytes max_files
        verify_after a h =
      let (_, h1) = require-holds ((partition_colon artifact_digest).0 == "sha256") _ _ a h in
      bind_elim (validate_sha256 (partition_colon artifact_digest).1) _ h1 λ _ _ h2.
        let (_, h3) =
          require-holds (artifact_type == "file" || artifact_type == "directory") _ _ a h2 in
        let (vacant, h4) = require-holds (is_absent dest) _ _ a h3 in
        (by_type (artifact_type == "file") h4, vacant)
    where
      by_type :
          (is_file : Bool)
          → (if is_file
              then download_file sha256 loads store s
                  (partition_colon artifact_digest).1
                  max_total_bytes
              else download_tree sha256 loads store s
                  (partition_colon artifact_digest).1
                  max_total_bytes
                  max_files
                  verify_after)
            ≡ ok a
          → IsOfDigest (partition_colon artifact_digest).1 max_total_bytes max_files a
      by_type true k =
          download_file-IsOfDigest s (partition_colon artifact_digest).1 max_total_bytes max_files a
            k
      by_type false k =
          download_tree-IsOfDigest s (partition_colon artifact_digest).1 max_total_bytes max_files
            verify_after a k
