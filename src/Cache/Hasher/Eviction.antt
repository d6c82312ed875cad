-- ===== src/Cache/Hasher/Eviction.antt =====
-- What src/modelguard/cache/digest_cache.py reads of a cache file, and which entries stay in it.
use modelguard.Base.{
  ℕ, zero, suc, ◌-◌, String, ◌≡◌, refl, inl, inr, Bool, true, false, not, none, some, [], ◌∷◌,
  arith,
}
use modelguard.Base.{◌==◌, string_eq, nat_eq, ltb, length, Bool-cases, if◌then◌else◌}
use modelguard.Base.Sorting.{sorted}
use modelguard.Base.Dict.{Dict, get}
use modelguard.Cache.{Entry}
use modelguard.Cache.Hasher.{
  CacheStat, present, empty_cache, max_cache_file_bytes, cache_schema_version, max_entries, by_age,
  CacheFile, load, remove, remove_oldest, evict,
}

pub if_split {ℓ κ} :
    {A : Type ℓ} (P : A → Type κ) (test : Bool) (a b : A)
    → (test ≡ true → P a)
    → (test ≡ false → P b)
    → P (if test then a else b)
if_split P true a b p q = p refl
if_split P false a b p q = q refl

if_either :
    (P : CacheFile → Type 0) (test : Bool) (a b : CacheFile) → P a → P b → P (if test then a else b)
if_either P test a b p q = if_split P test a b (λ _. p) (λ _. q)

-- A cache file is read as it is, or taken for empty.
pub load-either :
    (P : CacheFile → Type 0) (uid : ℕ) (st : CacheStat) (c : CacheFile)
    → P empty_cache
    → P c
    → P (load uid (present st (some c)))
unfolding load
load-either P uid st c none_left kept = if_either P (not st.is_regular) _ _ none_left (
    if_either P (not (st.owner == uid)) _ _ none_left (
      if_either P st.others_write _ _ none_left (
        if_either P (ltb max_cache_file_bytes st.bytes) _ _ none_left
          (if_either P (c.schema_version == cache_schema_version) _ _ kept none_left))))

get-remove :
    (d : Dict String Entry) (k j : String) → get (remove d k) j ≡ (if j == k then none else get d j)
unfolding get remove
get-remove [] k j = ground arith
get-remove ((i, f) ∷ d) k j = ground (arith, get-remove d k j)

still_there :
    (d : Dict String Entry) (k j : String) (e : Entry)
    → get (remove d k) j ≡ some e
    → get d j ≡ some e
still_there d k j e h = ground (arith, get-remove d k j)

get-remove_oldest :
    (count : ℕ) (oldest d : Dict String Entry) (j : String) (e : Entry)
    → get (remove_oldest count oldest d) j ≡ some e
    → get d j ≡ some e
unfolding remove_oldest
get-remove_oldest zero oldest d j e h = h
get-remove_oldest (suc count) [] d j e h = h
get-remove_oldest (suc count) ((k, _) ∷ oldest) d j e h =
    still_there d k j e (get-remove_oldest count oldest (remove d k) j e h)

pub get-evict :
    (d : Dict String Entry) (j : String) (e : Entry) → get (evict d) j ≡ some e → get d j ≡ some e
unfolding evict
get-evict d j e h = elim (Bool-cases (ltb max_entries (length d))) [
  | inl full ↦
      get-remove_oldest (length d - max_entries) (sorted by_age d) d j e (rw (full, evict) at h)
  | inr fits ↦ rw (fits, evict) at h
]
