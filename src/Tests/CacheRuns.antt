-- ===== src/Tests/CacheRuns.antt =====
-- The cached hasher (src/modelguard/cache/digest_cache.py) on one file, hashed twice.
use modelguard.Base.{String, ◌≡◌, refl, sym, ◌∙◌, ap, true, false, some, [], ◌∷◌, string_eq, nat_eq}
use modelguard.Base.Dict.{get, set}
use modelguard.Base.Result.{ok}
use modelguard.Hashing.{ArtifactDigest, file, hash_artifact, artifact_digest_from_files}
use modelguard.Cache.{Snapshot, Entry, stat_model, capture_fingerprint}
use modelguard.Cache.Hasher.{CacheDisk, absent, Machine, load, store, cached_hash}
use modelguard.Base.{length, ◌≤◌}
use modelguard.Cache.Hasher.{with_entry, max_entries, evict}
use modelguard.Cache.Hasher.Bounds.{length-with_entry}
use modelguard.Cache.Hasher.Fidelity.{
  digest_of, IsHonest, HoldsGenuine, cached_hash-refines, cached_hash-HoldsGenuine,
}
use modelguard.Tests.Samples.{digest_zero}

abbrev name_of : String → String
name_of key = "m.bin"

abbrev snapshot : Snapshot
snapshot = record {
  node = some (file (1 ∷ 2 ∷ []));
  meta = λ path. record { mtime_ns = 7; ctime_ns = 8; ino = 3; dev = 1 };
}

abbrev Seen : String → Snapshot → Type 0
Seen key s = s ≡ snapshot

abbrev machine : Machine
machine = record {
  uid = 1000;
  now_ns = 9000000000;
  recorded_at_ns = 9;
  size_of = λ c. 400;
  writes = true;
}

abbrev digest : ArtifactDigest
digest = record {
  algorithm = "sha256";
  artifact_type = "file";
  digest = digest_zero [];
  files = record { path = "m.bin"; sha256 = digest_zero []; size = 2 } ∷ [];
}

abbrev entry : Entry
entry = record {
  artifact_type = "file";
  files = digest.files;
  stats = stat_model "m.bin" 2 (snapshot.meta "m.bin") ∷ [];
  recorded_at_ns = 9;
}

abbrev kept : CacheDisk
kept = store machine absent "/data/m.bin" entry

first_call_stores :
    cached_hash digest_zero machine absent "/data/m.bin" "m.bin" snapshot snapshot snapshot
    ≡ ok (record { digest = digest; from_cache = false }, kept)
unfolding cached_hash capture_fingerprint string_eq nat_eq load get hash_artifact
first_call_stores = refl

second_call_reuses :
    cached_hash digest_zero machine kept "/data/m.bin" "m.bin" snapshot snapshot snapshot
    ≡ ok (record { digest = digest; from_cache = true }, kept)
unfolding cached_hash capture_fingerprint string_eq nat_eq load get store set
    artifact_digest_from_files
second_call_reuses = refl

Seen-IsHonest : IsHonest digest_zero name_of Seen
Seen-IsHonest key s t f seen_s seen_t at_s at_t = ap (λ x. x.node) (seen_s ∙ sym seen_t)

absent-HoldsGenuine : HoldsGenuine digest_zero name_of Seen machine absent
unfolding load get
absent-HoldsGenuine key cached h = absurd (cc h)

cached_hash-HoldsGenuine_example : HoldsGenuine digest_zero name_of Seen machine kept
cached_hash-HoldsGenuine_example =
    cached_hash-HoldsGenuine digest_zero name_of Seen machine absent "/data/m.bin" snapshot snapshot
      snapshot (record { digest = digest; from_cache = false }) kept absent-HoldsGenuine refl
      (λ t t' stats _ _. refl) first_call_stores

cached_hash-refines_example :
    digest_of digest_zero name_of Seen
      (cached_hash digest_zero machine kept "/data/m.bin" "m.bin" snapshot snapshot snapshot)
    ≡ hash_artifact digest_zero "m.bin" snapshot.node
cached_hash-refines_example =
    cached_hash-refines digest_zero name_of Seen Seen-IsHonest machine kept "/data/m.bin" snapshot
      snapshot snapshot cached_hash-HoldsGenuine_example refl refl

length-with_entry_example :
    length (with_entry (load machine.uid kept) "/data/n.bin" entry).entries ≤ max_entries
unfolding store load evict set string_eq nat_eq
length-with_entry_example = length-with_entry (load machine.uid kept) "/data/n.bin" entry (refl, tt)
