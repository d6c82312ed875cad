-- ===== src/Cache/Hasher/Fidelity.antt =====
-- The cached hasher (src/modelguard/cache/digest_cache.py) against `hash_artifact`.
use mathlib.Core.Path.{subst}
use mathlib.Core.Option.{some-injective}
use modelguard.Base.{
  String, ◌≡◌, refl, sym, ap, ◌∙◌, inl, inr, false, ◌&&◌, not, Option, none, some, List, [], arith,
}
use modelguard.Base.{◌==◌, string_eq, nat_eq, both, Bool-cases, text_eq, if◌then◌else◌}
use modelguard.Base.Bytes.{Bytes}
use modelguard.Base.Dict.{Dict, get, set, get-set}
use modelguard.Base.Result.{Result, ok, err, Result-cases, ◌>>=◌, bind_elim, ok-injective}
use modelguard.Exceptions.{Exception}
use modelguard.Hashing.{ArtifactDigest, artifact_digest_from_files, hash_artifact}
use modelguard.Cache.{
  same_files, all_older_than_margin, Snapshot, StatModel, Entry, same_stats, capture_fingerprint,
  entry_is_consistent,
}
use modelguard.Cache.Hasher.{
  to_option, with_entry, private_file, CacheDisk, Machine, load, evict, store, reuse, entry_of,
  keep, answer, cached_hash,
}
use modelguard.Cache.Hasher.Rebuilding.{same_stats-eq, same_type, hashed-Rebuilt}
use modelguard.Cache.Hasher.Eviction.{if_split, load-either, get-evict}
use modelguard.Sdk.Verification.{CachedHashResult}

of_option :
    (r : Result Exception ArtifactDigest) (d : ArtifactDigest) → to_option r ≡ some d → r ≡ ok d
of_option (ok a) d h = ap ok (some-injective a d h)
of_option (err e) d h = absurd (cc h)

-- The name that a resolved path ends in, and the snapshots that occur at a path.
module _ (sha256 : Bytes → String) (name_of : String → String)
    (Seen : String → Snapshot → Type 0) where
  -- The metadata are honest: what looks unchanged has not changed.
  abbrev pub IsHonest : Type 0
  IsHonest =
      (key : String) (s t : Snapshot) (f : String × List StatModel)
      → Seen key s
      → Seen key t
      → capture_fingerprint (name_of key) s ≡ ok f
      → capture_fingerprint (name_of key) t ≡ ok f
      → s.node ≡ t.node

  -- An entry that was made of a snapshot of the path.
  abbrev pub IsGenuine : String → Entry → Type 0
  IsGenuine key cached =
      (s : Snapshot) × (d : ArtifactDigest) × Seen key s
      × (capture_fingerprint (name_of key) s ≡ ok (cached.artifact_type, cached.stats))
      × (hash_artifact sha256 (name_of key) s.node ≡ ok d)
      × (d.artifact_type ≡ cached.artifact_type)
      × (d.files ≡ cached.files)

  abbrev pub AllGenuine : Dict String Entry → Type 0
  AllGenuine entries =
      (key : String) (cached : Entry) → get entries key ≡ some cached → IsGenuine key cached

  reuse-agrees :
      (cached : Entry) (t : String) (stats : List StatModel) (digest : ArtifactDigest)
      → reuse sha256 (some cached) t stats ≡ some digest
      → (cached.stats ≡ stats)
        × (cached.artifact_type ≡ t)
        × (artifact_digest_from_files sha256 cached.artifact_type cached.files ≡ ok digest)
  unfolding reuse entry_is_consistent
  reuse-agrees cached t stats digest r =
      elim (Bool-cases (same_stats cached.stats stats && entry_is_consistent cached t stats)) [
        | inl agrees ↦
            let (a, b) =
              both (same_stats cached.stats stats) (entry_is_consistent cached t stats) agrees in
            let (c, _) = both (cached.artifact_type == t) (same_files cached.files stats) b in
            (
              same_stats-eq cached.stats stats a,
              text_eq cached.artifact_type t c,
              of_option _ digest (rw (agrees, reuse) at r),
            )
        | inr differs ↦ absurd (let k = rw (differs, reuse) at r in cc)
      ]

  reuse-digest :
      IsHonest
      → (key : String) (before : Snapshot) (cached : Entry) (t : String) (stats : List StatModel)
        (digest : ArtifactDigest)
      → IsGenuine key cached
      → Seen key before
      → capture_fingerprint (name_of key) before ≡ ok (t, stats)
      → reuse sha256 (some cached) t stats ≡ some digest
      → hash_artifact sha256 (name_of key) before.node ≡ ok digest
  reuse-digest honest key before cached t stats digest (s, d, seen, captured, h, same, files) now c
        r =
      let (at_stats, at_type, made) = reuse-agrees cached t stats digest r in
      let unchanged : s.node ≡ before.node =
        honest key s before (t, stats) seen now (rw (captured, at_stats, at_type) refl) c in
      let again : artifact_digest_from_files sha256 cached.artifact_type cached.files ≡ ok d =
        rw (← same, ← files) (hashed-Rebuilt sha256 (name_of key) s.node d h) in
      rw (← unchanged, h, ← again, made) refl

  -- The result of a call without the cache file that it leaves, as `hash_artifact` would give it.
  abbrev pub digest_of :
      Result Exception (CachedHashResult × CacheDisk) → Result Exception ArtifactDigest
  digest_of (ok (r, disk)) = ok r.digest
  digest_of (err e) = err e

  digest_of_computed :
      (r : Result Exception ArtifactDigest) (f : ArtifactDigest → CacheDisk)
      → digest_of
          (r >>= λ computed. ok (record { digest = computed; from_cache = false }, f computed))
        ≡ r
  digest_of_computed (ok d) f = refl
  digest_of_computed (err e) f = refl

  -- With an honest file system, a cache that holds genuine entries, and an artifact that does not
  -- change during the call, the hasher returns and raises exactly what `hash_artifact` does.
  pub cached_hash-refines :
      IsHonest
      → (machine : Machine) (disk : CacheDisk) (key : String) (before during after : Snapshot)
      → AllGenuine (load machine.uid disk).entries
      → Seen key before
      → during.node ≡ before.node
      → digest_of (cached_hash sha256 machine disk key (name_of key) before during after)
        ≡ hash_artifact sha256 (name_of key) before.node
  unfolding cached_hash answer reuse
  cached_hash-refines honest machine disk key before during after genuine seen still =
      elim (Result-cases (capture_fingerprint (name_of key) before)) [
        | inr (_, unsafe) ↦
            rw (unsafe, cached_hash)
              (digest_of_computed (hash_artifact sha256 (name_of key) during.node) (λ _. disk)
                ∙ ap (hash_artifact sha256 (name_of key)) still)
        | inl ((t, stats), c) ↦
            rw (c, cached_hash)
              (answered t stats c (get (load machine.uid disk).entries key) refl
                (reuse sha256 (get (load machine.uid disk).entries key) t stats) refl)
      ]
    where
      answered :
          (t : String) (stats : List StatModel)
          → capture_fingerprint (name_of key) before ≡ ok (t, stats)
          → (o : Option Entry) → get (load machine.uid disk).entries key ≡ o
          → (found : Option ArtifactDigest) → reuse sha256 o t stats ≡ found
          → digest_of (answer sha256 machine disk key (name_of key) stats found during after)
            ≡ hash_artifact sha256 (name_of key) before.node
      answered t stats c o at_o none at_none =
          digest_of_computed (hash_artifact sha256 (name_of key) during.node) _
          ∙ ap (hash_artifact sha256 (name_of key)) still
      answered t stats c none at_o (some digest) at_digest = absurd (cc at_digest)
      answered t stats c (some cached) at_o (some digest) at_digest = sym (
          reuse-digest honest key before cached t stats digest (genuine key cached at_o) seen c
            at_digest)

  AllGenuine-set :
      (d : Dict String Entry) (key : String) (cached : Entry)
      → AllGenuine d
      → IsGenuine key cached
      → AllGenuine (evict (set d key cached))
  AllGenuine-set d key cached all one j e h =
      let put : (if j == key then some cached else get d j) ≡ some e =
        sym (get-set d key j cached) ∙ get-evict (set d key cached) j e h in
      elim (Bool-cases (j == key)) [
        | inl same ↦
            subst (IsGenuine j) (some-injective cached e (rw same at put))
              (subst (λ k. IsGenuine k cached) (sym (text_eq j key same)) one)
        | inr other ↦ all j e (rw other at put)
      ]

  AllGenuine-empty : AllGenuine []
  unfolding get
  AllGenuine-empty key cached h = absurd (cc h)

  IsGenuine-entry_of :
      (machine : Machine) (key : String) (before : Snapshot) (t : String) (stats : List StatModel)
      (computed : ArtifactDigest)
      → Seen key before
      → capture_fingerprint (name_of key) before ≡ ok (t, stats)
      → hash_artifact sha256 (name_of key) before.node ≡ ok computed
      → IsGenuine key (entry_of sha256 machine computed stats)
  unfolding entry_of
  IsGenuine-entry_of machine key before t stats computed seen c h =
      let same : computed.artifact_type ≡ t =
        same_type sha256 (name_of key) before.node before.meta t stats computed c h in
      (before, computed, seen, rw (c, same) refl, h, refl, refl)

  -- The entries that a cache file yields to this user are genuine.
  abbrev pub HoldsGenuine : Machine → CacheDisk → Type 0
  HoldsGenuine machine disk = AllGenuine (load machine.uid disk).entries

  HoldsGenuine-store :
      (machine : Machine) (disk : CacheDisk) (key : String) (cached : Entry)
      → HoldsGenuine machine disk
      → IsGenuine key cached
      → HoldsGenuine machine (store machine disk key cached)
  unfolding store
  HoldsGenuine-store machine disk key cached all one =
      if_split (HoldsGenuine machine) machine.writes _ _
        (λ _.
          load-either (λ c. AllGenuine c.entries) machine.uid
            (private_file machine (with_entry (load machine.uid disk) key cached))
            (with_entry (load machine.uid disk) key cached) AllGenuine-empty
            (AllGenuine-set (load machine.uid disk).entries key cached all one))
        (λ _. all)

  HoldsGenuine-keep :
      (machine : Machine) (disk : CacheDisk) (key : String) (computed : ArtifactDigest)
      (stats : List StatModel) (after : Result (Unit {0}) (String × List StatModel))
      → HoldsGenuine machine disk
      → ((t : String)
          → after ≡ ok (t, stats)
          → IsGenuine key (entry_of sha256 machine computed stats))
      → HoldsGenuine machine (keep sha256 machine disk key computed stats after)
  unfolding keep
  HoldsGenuine-keep machine disk key computed stats (err _) all one = all
  HoldsGenuine-keep machine disk key computed stats (ok (t, found)) all one =
      if_split (HoldsGenuine machine) (not (same_stats found stats)) _ _ (λ _. all)
        λ same.
          if_split (HoldsGenuine machine) (not (all_older_than_margin stats machine.now_ns)) _ _
            (λ _. all)
            λ _.
              HoldsGenuine-store machine disk key (entry_of sha256 machine computed stats) all
                (one t (ap (λ ss. ok (t, ss)) (same_stats-eq found stats (ground (arith, same)))))

  -- What looks the same before and after it was hashed did not change meanwhile.
  abbrev pub IsSteady : String → (before during after : Snapshot) → Type 0
  IsSteady key before during after =
      (t t' : String) (stats : List StatModel)
      → capture_fingerprint (name_of key) before ≡ ok (t, stats)
      → capture_fingerprint (name_of key) after ≡ ok (t', stats)
      → during.node ≡ before.node

  HoldsGenuine-answer :
      (machine : Machine) (disk : CacheDisk) (key : String) (before during after : Snapshot)
      (t : String) (stats : List StatModel) (found : Option ArtifactDigest) (r : CachedHashResult)
      (disk' : CacheDisk)
      → HoldsGenuine machine disk
      → Seen key before
      → IsSteady key before during after
      → capture_fingerprint (name_of key) before ≡ ok (t, stats)
      → answer sha256 machine disk key (name_of key) stats found during after ≡ ok (r, disk')
      → HoldsGenuine machine disk'
  unfolding answer
  HoldsGenuine-answer machine disk key before during after t stats (some digest) r disk' all seen
        steady c h =
      subst (HoldsGenuine machine) (ap (λ p. p.1) (ok-injective h)) all
  HoldsGenuine-answer machine disk key before during after t stats none r disk' all seen steady c
        h =
      bind_elim (hash_artifact sha256 (name_of key) during.node) _ h λ computed at_computed h1.
        subst (HoldsGenuine machine) (ap (λ p. p.1) (ok-injective h1)) (
          HoldsGenuine-keep machine disk key computed stats
            (capture_fingerprint (name_of key) after) all
            λ t' c'. IsGenuine-entry_of machine key before t stats computed seen c (
              ap (hash_artifact sha256 (name_of key)) (sym (steady t t' stats c c')) ∙ at_computed))

  -- The entry that a call leaves behind is genuine like the others, where an artifact whose metadata
  -- are the same before and after it was hashed has not changed meanwhile.
  pub cached_hash-HoldsGenuine :
      (machine : Machine) (disk : CacheDisk) (key : String) (before during after : Snapshot)
      (r : CachedHashResult) (disk' : CacheDisk)
      → HoldsGenuine machine disk
      → Seen key before
      → IsSteady key before during after
      → cached_hash sha256 machine disk key (name_of key) before during after ≡ ok (r, disk')
      → HoldsGenuine machine disk'
  unfolding cached_hash
  cached_hash-HoldsGenuine machine disk key before during after r disk' all seen steady h =
      elim (Result-cases (capture_fingerprint (name_of key) before)) [
        | inr (_, unsafe) ↦
            bind_elim (hash_artifact sha256 (name_of key) during.node) _
              (rw (unsafe, cached_hash) at h)
              λ computed _ h1. subst (HoldsGenuine machine) (ap (λ p. p.1) (ok-injective h1)) all
        | inl ((t, stats), c) ↦
            HoldsGenuine-answer machine disk key before during after t stats _ r disk' all seen
              steady c (rw (c, cached_hash) at h)
      ]
