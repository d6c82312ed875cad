-- ===== src/Cache/Hasher/Rebuilding.antt =====
-- A digest is derived again from its own files (src/modelguard/hashing/digest.py), and equal
-- fingerprints of src/modelguard/cache/digest_cache.py are equal.
use mathlib.Core.Path.{subst}
use mathlib.Core.Logic.{⊎_elim}
use modelguard.Base.{
  String, ◌≡◌, refl, sym, ap, ◌∙◌, ◌⊎◌, inl, inr, true, false, Option, none, some, List, [], ◌∷◌,
  arith,
}
use modelguard.Base.{◌==◌, string_eq, nat_eq, text_le_total, length, both, Bool-cases, text_eq}
use modelguard.Base.Bytes.{Bytes}
use modelguard.Base.Sorting.{sorted, sorted-sorted}
use modelguard.Base.Result.{ok, bind_elim, ok-injective}
use modelguard.Hashing.{
  FileDigest, ArtifactDigest, Node, file, directory, unlistable, link_to_file, link_to_directory,
  broken_link, by_path, canonical_manifest_bytes, artifact_digest_from_files, hash_file,
  hash_directory, hash_artifact, walk_node, refuse_no_files, digest_bytes, file_digest_of,
}
use modelguard.Cache.{
  StatModel, Meta, stat_model, stat_node, cacheable, same_stat, sorted_stats, same_stats,
  capture_fingerprint,
}

by_path_total : (f g : FileDigest) → by_path f g ≡ false → by_path g f ≡ true
by_path_total f g h = text_le_total f.path g.path h

same_manifest :
    (files : List FileDigest)
    → canonical_manifest_bytes (sorted by_path files) ≡ canonical_manifest_bytes files
unfolding canonical_manifest_bytes
same_manifest files = rw (sorted-sorted by_path by_path_total files) refl

same_fields :
    (s t : StatModel)
    → same_stat s t ≡ true
    → (s.relpath ≡ t.relpath)
      × (s.size ≡ t.size)
      × (s.mtime_ns ≡ t.mtime_ns)
      × (s.ctime_ns ≡ t.ctime_ns)
      × (s.ino ≡ t.ino)
      × (s.dev ≡ t.dev)
same_fields s t h = ground arith

same_stat-eq : (s t : StatModel) → same_stat s t ≡ true → s ≡ t
same_stat-eq s t h =
    let (e, f, g, i, j, k) = same_fields s t h in
    λ n. record { relpath = e n; size = f n; mtime_ns = g n; ctime_ns = i n; ino = j n; dev = k n }

module _ (sha256 : Bytes → String) where
  abbrev file_digest : FileDigest → ArtifactDigest
  file_digest f = record {
    algorithm = "sha256";
    artifact_type = "file";
    digest = f.sha256;
    files = f ∷ [];
  }

  abbrev directory_digest : List FileDigest → ArtifactDigest
  directory_digest files = record {
    algorithm = "sha256";
    artifact_type = "directory";
    digest = sha256 (canonical_manifest_bytes files);
    files = sorted by_path files;
  }

  one_file :
      (files : List FileDigest) (d : ArtifactDigest)
      → file_digest_of sha256 files ≡ ok d
      → (f : FileDigest) × (d ≡ file_digest f)
  one_file [] d h = absurd (cc h)
  one_file (f ∷ []) d h = (f, sym (ok-injective h))
  one_file (f ∷ g ∷ files) d h = absurd (cc h)

  derived :
      (artifact_type : String) (files : List FileDigest) (d : ArtifactDigest)
      → artifact_digest_from_files sha256 artifact_type files ≡ ok d
      → ((f : FileDigest) × (artifact_type ≡ "file") × (d ≡ file_digest f))
        ⊎ ((artifact_type ≡ "directory") × (d ≡ directory_digest files))
  unfolding artifact_digest_from_files
  derived artifact_type files d h = elim (Bool-cases (artifact_type == "file")) [
    | inl is_file ↦
        let (f, e) = one_file files d (rw (is_file, artifact_digest_from_files) at h) in
        inl (f, text_eq artifact_type "file" is_file, e)
    | inr other ↦ elim (Bool-cases (artifact_type == "directory")) [
      | inl is_directory ↦ inr (
        text_eq artifact_type "directory" is_directory,
        sym (ok-injective (rw (other, is_directory, artifact_digest_from_files) at h)),
      )
      | inr neither ↦ absurd (let k = rw (other, neither, artifact_digest_from_files) at h in cc)
    ]
  ]

  derived_file :
      (f : FileDigest) → artifact_digest_from_files sha256 "file" (f ∷ []) ≡ ok (file_digest f)
  unfolding artifact_digest_from_files string_eq
  derived_file f = refl

  derived_directory :
      (files : List FileDigest)
      → artifact_digest_from_files sha256 "directory" (sorted by_path files)
        ≡ ok (directory_digest files)
  unfolding artifact_digest_from_files string_eq
  derived_directory files = rw (same_manifest files, sorted-sorted by_path by_path_total files) refl

  abbrev pub Rebuilt : ArtifactDigest → Type 0
  Rebuilt d = artifact_digest_from_files sha256 d.artifact_type d.files ≡ ok d

  -- A digest is derived again from its own type and files.
  derived-Rebuilt :
      (artifact_type : String) (files : List FileDigest) (d : ArtifactDigest)
      → artifact_digest_from_files sha256 artifact_type files ≡ ok d
      → Rebuilt d
  derived-Rebuilt artifact_type files d h =
      ⊎_elim (λ (f, _, e). subst Rebuilt (sym e) (derived_file f))
        (λ (_, e). subst Rebuilt (sym e) (derived_directory files))
        (derived artifact_type files d h)

  derived-artifact_type :
      (artifact_type : String) (files : List FileDigest) (d : ArtifactDigest)
      → artifact_digest_from_files sha256 artifact_type files ≡ ok d
      → d.artifact_type ≡ artifact_type
  derived-artifact_type artifact_type files d h =
      ⊎_elim (λ (f, t, e). ap (λ x. x.artifact_type) e ∙ sym t)
        (λ (t, e). ap (λ x. x.artifact_type) e ∙ sym t) (derived artifact_type files d h)

  -- What is hashed at a path: a file, or a directory.
  hashed :
      (name : String) (node : Option Node) (d : ArtifactDigest)
      → hash_artifact sha256 name node ≡ ok d
      → (artifact_type : String) × (files : List FileDigest) × (artifact_digest_from_files sha256
            artifact_type files
          ≡ ok d)
  unfolding hash_artifact hash_file hash_directory
  hashed name none d h = absurd (cc h)
  hashed name (some broken_link) d h = absurd (cc h)
  hashed name (some link_to_file) d h = absurd (cc h)
  hashed name (some link_to_directory) d h = absurd (cc h)
  hashed name (some (unlistable listing)) d h = unfold walk_node in absurd (cc h)
  hashed name (some (file content)) d h = ("file", digest_bytes sha256 name content ∷ [], h)
  hashed name (some (directory listing)) d h =
      bind_elim (walk_node sha256 "" (directory listing)) _ h λ found _ h1.
        bind_elim (refuse_no_files sha256 found) _ h1 λ files _ h2. ("directory", files, h2)

  sorted_stats-type :
      (ss : List StatModel) (t : String) (stats : List StatModel)
      → sorted_stats ss ≡ ok (t, stats)
      → t ≡ "directory"
  sorted_stats-type [] t stats h = absurd (cc h)
  sorted_stats-type (s ∷ ss) t stats h = ap (λ p. p.0) (sym (ok-injective h))

  -- The type in a fingerprint is the type of the digest.
  pub same_type :
      (name : String) (node : Option Node) (meta : String → Meta) (t : String)
      (stats : List StatModel) (d : ArtifactDigest)
      → capture_fingerprint name (record { node = node; meta = meta }) ≡ ok (t, stats)
      → hash_artifact sha256 name node ≡ ok d
      → d.artifact_type ≡ t
  unfolding hash_artifact hash_file hash_directory capture_fingerprint
  same_type name none meta t stats d c h = absurd (cc h)
  same_type name (some broken_link) meta t stats d c h = absurd (cc h)
  same_type name (some link_to_file) meta t stats d c h = absurd (cc h)
  same_type name (some link_to_directory) meta t stats d c h = absurd (cc h)
  same_type name (some (unlistable listing)) meta t stats d c h = absurd (cc c)
  same_type name (some (file content)) meta t stats d c h =
      bind_elim (cacheable (stat_model name (length content) (meta name))) _ c λ single _ c1.
        derived-artifact_type "file" (digest_bytes sha256 name content ∷ []) d h
        ∙ ap (λ p. p.0) (ok-injective c1)
  same_type name (some (directory listing)) meta t stats d c h =
      bind_elim (walk_node sha256 "" (directory listing)) _ h λ found _ h1.
        bind_elim (refuse_no_files sha256 found) _ h1 λ files _ h2.
          bind_elim (stat_node meta "" (directory listing)) _ c λ ss _ c1.
            derived-artifact_type "directory" files d h2 ∙ sym (sorted_stats-type ss t stats c1)

  pub hashed-Rebuilt :
      (name : String) (node : Option Node) (d : ArtifactDigest)
      → hash_artifact sha256 name node ≡ ok d
      → Rebuilt d
  hashed-Rebuilt name node d h =
      let (artifact_type, files, e) = hashed name node d h in
      derived-Rebuilt artifact_type files d e

pub same_stats-eq : (ss ts : List StatModel) → same_stats ss ts ≡ true → ss ≡ ts
same_stats-eq [] [] h = refl
same_stats-eq [] (t ∷ ts) h = absurd (cc h)
same_stats-eq (s ∷ ss) [] h = absurd (cc h)
same_stats-eq (s ∷ ss) (t ∷ ts) h =
    let (here, there) = both (same_stat s t) (same_stats ss ts) h in
    let e : ss ≡ ts = same_stats-eq ss ts there in cc (same_stat-eq s t here, e)
