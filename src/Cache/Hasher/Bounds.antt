-- ===== src/Cache/Hasher/Bounds.antt =====
-- How many entries a cache file of src/modelguard/cache/digest_cache.py holds.
use modelguard.Base.{
  ℕ, zero, suc, ◌+◌, ◌-◌, ◌≤◌, String, ◌≡◌, refl, sym, ap, ◌∙◌, inl, inr, Bool, true, false, ◌||◌,
  [], ◌∷◌, arith,
}
use modelguard.Base.{◌==◌, string_eq, contains, ltb, length, Bool-cases, if◌then◌else◌}
use modelguard.Base.Sorting.{sorted, insert_sorted}
use modelguard.Base.Dict.{Dict, keys, set}
use modelguard.Cache.{Entry}
use modelguard.Cache.Hasher.{
  CacheFile, with_entry, max_entries, by_age, remove, remove_oldest, evict,
}

-- A Python dict: no key is met twice.
abbrev pub IsDict : Dict String Entry → Type 0
IsDict [] = Unit
IsDict ((k, e) ∷ d) = (contains (keys d) k ≡ false) × IsDict d

-- Every key of the first is one of the second.
abbrev Within : Dict String Entry → Dict String Entry → Type 0
Within [] d = Unit
Within ((k, e) ∷ part) d = (contains (keys d) k ≡ true) × Within part d

contains-remove :
    (d : Dict String Entry) (k j : String)
    → contains (keys (remove d k)) j ≡ (if j == k then false else contains (keys d) j)
unfolding remove
contains-remove [] k j = ground arith
contains-remove ((i, e) ∷ d) k j = ground (arith, contains-remove d k j)

length-remove-le : (d : Dict String Entry) (k : String) → length (remove d k) ≤ length d
unfolding remove
length-remove-le [] k = omega arith
length-remove-le ((i, e) ∷ d) k = ground (arith, length-remove-le d k)

length-remove :
    (d : Dict String Entry) (k : String)
    → contains (keys d) k ≡ true
    → suc (length (remove d k)) ≤ length d
unfolding remove
length-remove [] k h = absurd (cc h)
length-remove ((i, e) ∷ d) k h = ground (arith, length-remove d k, length-remove-le d k)

Within-remove :
    (part d : Dict String Entry) (k : String)
    → contains (keys part) k ≡ false
    → Within part d
    → Within part (remove d k)
Within-remove [] d k fresh w = tt
Within-remove ((j, e) ∷ part) d k fresh (here, there) =
    (ground (arith, contains-remove d k j), Within-remove part d k (ground (arith, fresh)) there)

length-remove_oldest :
    (count : ℕ) (oldest d : Dict String Entry)
    → count ≤ length oldest
    → IsDict oldest
    → Within oldest d
    → count + length (remove_oldest count oldest d) ≤ length d
unfolding remove_oldest
length-remove_oldest zero oldest d n i w = omega arith
length-remove_oldest (suc count) [] d n i w = absurd (omega (arith, n))
length-remove_oldest (suc count) ((k, e) ∷ oldest) d n (fresh, i) (here, there) = omega (
  arith,
  length-remove d k here,
  length-remove_oldest count oldest (remove d k) (omega (arith, n)) i
      (Within-remove oldest d k fresh there),
)

module _ (le : String × Entry → String × Entry → Bool) where
  contains-insert :
      (k : String) (e : Entry) (d : Dict String Entry) (j : String)
      → contains (keys (insert_sorted le (k, e) d)) j ≡ (j == k || contains (keys d) j)
  unfolding insert_sorted
  contains-insert k e [] j = refl
  contains-insert k e ((i, f) ∷ d) j = ground (arith, contains-insert k e d j)

  IsDict-insert :
      (k : String) (e : Entry) (d : Dict String Entry)
      → contains (keys d) k ≡ false
      → IsDict d
      → IsDict (insert_sorted le (k, e) d)
  unfolding insert_sorted
  IsDict-insert k e [] fresh i = (refl, tt)
  IsDict-insert k e ((j, f) ∷ d) fresh (new, i) = elim (Bool-cases (le (k, e) (j, f))) [
    | inl before ↦ rw (before, insert_sorted) (fresh, (new, i))
    | inr after ↦
        rw (after, insert_sorted)
          (ground (arith, contains-insert k e d j), IsDict-insert k e d (ground (arith, fresh)) i)
  ]

  contains-sorted :
      (d : Dict String Entry) (j : String) → contains (keys (sorted le d)) j ≡ contains (keys d) j
  unfolding sorted
  contains-sorted [] j = refl
  contains-sorted ((k, e) ∷ d) j =
      ground (arith, contains-insert k e (sorted le d) j, contains-sorted d j)

  IsDict-sorted : (d : Dict String Entry) → IsDict d → IsDict (sorted le d)
  unfolding sorted
  IsDict-sorted [] i = tt
  IsDict-sorted ((k, e) ∷ d) (fresh, i) =
      IsDict-insert k e (sorted le d) (contains-sorted d k ∙ fresh) (IsDict-sorted d i)

  length-insert :
      (x : String × Entry) (d : Dict String Entry) → length (insert_sorted le x d) ≡ suc (length d)
  unfolding insert_sorted
  length-insert x [] = refl
  length-insert x (y ∷ d) = ground (arith, length-insert x d)

  length-sorted : (d : Dict String Entry) → length (sorted le d) ≡ length d
  unfolding sorted
  length-sorted [] = refl
  length-sorted (x ∷ d) = length-insert x (sorted le d) ∙ ap suc (length-sorted d)

Within-self :
    (part d : Dict String Entry)
    → ((j : String) → contains (keys part) j ≡ true → contains (keys d) j ≡ true)
    → Within part d
Within-self [] d h = tt
Within-self ((k, e) ∷ part) d h =
    (h k (ground arith), Within-self part d (λ j m. h j (ground (arith, m))))

length-evict : (d : Dict String Entry) → IsDict d → length (evict d) ≤ max_entries
unfolding evict
length-evict d i =
    let oldest = sorted by_age d in
    let gone =
      length-remove_oldest (length d - max_entries) oldest d (omega (arith, length-sorted by_age d))
        (IsDict-sorted by_age d i)
        (Within-self oldest d (λ j m. sym (contains-sorted by_age d j) ∙ m)) in
    elim (Bool-cases (ltb max_entries (length d))) [
      | inl full ↦ rw (full, evict) (omega (arith, gone))
      | inr fits ↦ rw (fits, evict) (ground (arith, fits))
    ]

contains-set :
    (d : Dict String Entry) (k j : String) (e : Entry)
    → contains (keys (set d k e)) j ≡ (j == k || contains (keys d) j)
unfolding set
contains-set [] k j e = refl
contains-set ((i, f) ∷ d) k j e = ground (arith, contains-set d k j e)

IsDict-set : (d : Dict String Entry) (k : String) (e : Entry) → IsDict d → IsDict (set d k e)
unfolding set
IsDict-set [] k e i = (refl, tt)
IsDict-set ((j, f) ∷ d) k e (new, i) = elim (Bool-cases (k == j)) [
  | inl same ↦ rw (same, set) (new, i)
  | inr other ↦ rw (other, set) (ground (arith, contains-set d k j e), IsDict-set d k e i)
]

-- However many entries a cache held before, and whatever entry is added, at most `MAX_ENTRIES` stay
-- in it; the keys of the cache are distinct, as those of a Python dict are.
pub length-with_entry :
    (cache : CacheFile) (key : String) (cached : Entry)
    → IsDict cache.entries
    → length (with_entry cache key cached).entries ≤ max_entries
length-with_entry cache key cached i =
    length-evict (set cache.entries key cached) (IsDict-set cache.entries key cached i)
