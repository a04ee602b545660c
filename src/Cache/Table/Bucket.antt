-- ===== src/Cache/Table/Bucket.antt =====
-- rutil/lru_cache.cc: one chain of `LRUHandleTable`.
use rocksutil.Base.{
  ℕ, suc, ◌+◌, ◌-◌, ◌≤◌, ◌≡◌, refl, sym, Bool, true, false, ◌&&◌, ◌==◌, ==_iff, ==_refl,
  if◌then◌else◌, Bool-cases, Option, none, some, List, [], ◌∷◌, length, All, arith, inl, inr,
}
use rocksutil.Slice.{equals, equals_iff}
use rocksutil.Cache.Handles.{Handle, matches}
use rocksutil.Cache.Table.{find_pointer, head, insert_chain, remove_chain}

-- What `FindPointer` finds in a chain.
abbrev pub first : List ℕ → ℕ → List Handle → Option Handle
first key hash chain = head (find_pointer key hash chain).1

-- How many handles of a chain have the key and the hash.
abbrev pub occurs : List ℕ → ℕ → List Handle → ℕ
occurs key hash [] = 0
occurs key hash (h ∷ hs) = (if matches key hash h then 1 else 0) + occurs key hash hs

pub matches_eq :
    (k : List ℕ) (q : ℕ) (h : Handle) → matches k q h ≡ true → (h.hash ≡ q) × (k ≡ h.key)
matches_eq k q h m =
    let hash : (h.hash == q) ≡ true = ground arith in
    let key : equals k h.key ≡ true = ground arith in
    ((==_iff h.hash q).0 hash, (equals_iff k h.key).0 key)

pub matches_self : (h : Handle) → matches h.key h.hash h ≡ true
matches_self h = rw (==_refl h.hash, (equals_iff h.key h.key).1 refl) refl

-- Two handles that one search matches are matched by the same searches.
pub matches_same :
    (k : List ℕ) (q : ℕ) (h x : Handle)
    → matches h.key h.hash x ≡ true
    → matches k q x ≡ matches k q h
matches_same k q h x m = let same = matches_eq h.key h.hash x m in rw (same.0, sym same.1) refl

pub matches_other :
    (k : List ℕ) (q : ℕ) (h x : Handle)
    → matches h.key h.hash x ≡ false
    → matches k q h ≡ true
    → matches k q x ≡ false
matches_other k q h x other m = let same = matches_eq k q h m in rw (← same.0, same.1) other

pub first-occurs : (k : List ℕ) (q : ℕ) (c : List Handle) → first k q c ≡ none → occurs k q c ≡ 0
first-occurs k q [] h = refl
first-occurs k q (x ∷ xs) h = ground (arith, first-occurs k q xs)

pub first-some :
    (k : List ℕ) (q : ℕ) (c : List Handle) (h : Handle) → first k q c ≡ some h → 1 ≤ occurs k q c
first-some k q [] h e = cc
first-some k q (x ∷ xs) h e = ground (arith, first-some k q xs h)

pub occurs-first : (k : List ℕ) (q : ℕ) (c : List Handle) → occurs k q c ≡ 0 → first k q c ≡ none
occurs-first k q [] h = refl
occurs-first k q (x ∷ xs) h = ground (arith, occurs-first k q xs)

pub first-matches :
    (k : List ℕ) (q : ℕ) (c : List Handle) (h : Handle)
    → first k q c ≡ some h
    → matches k q h ≡ true
first-matches k q [] h e = cc
first-matches k q (x ∷ xs) h e = ground (arith, first-matches k q xs h)

pub first-insert_chain :
    (k : List ℕ) (q : ℕ) (h : Handle) (c : List Handle)
    → first k q (insert_chain h c) ≡ (if matches k q h then some h else first k q c)
unfolding insert_chain
first-insert_chain k q h [] = ground arith
first-insert_chain k q h (x ∷ xs) = elim (Bool-cases (matches h.key h.hash x)) [
  | inl found ↦ rw (found, matches_same k q h x found) (ground arith)
  | inr other ↦ rw other (ground (arith, matches_other k q h x other, first-insert_chain k q h xs))
]

pub occurs-insert_chain :
    (k : List ℕ) (q : ℕ) (h : Handle) (c : List Handle)
    → occurs k q (insert_chain h c)
      ≡ (if matches k q h then suc (occurs k q c - 1) else occurs k q c)
unfolding insert_chain
occurs-insert_chain k q h [] = ground arith
occurs-insert_chain k q h (x ∷ xs) = elim (Bool-cases (matches h.key h.hash x)) [
  | inl found ↦ rw (found, matches_same k q h x found) (ground arith)
  | inr other ↦ rw other (ground (arith, matches_other k q h x other, occurs-insert_chain k q h xs))
]

pub length-insert_chain :
    (h : Handle) (c : List Handle)
    → length (insert_chain h c) ≡ (if occurs h.key h.hash c == 0 then suc (length c) else length c)
unfolding insert_chain
length-insert_chain h [] = omega arith
length-insert_chain h (x ∷ xs) = ground (arith, length-insert_chain h xs)

pub All-insert_chain :
    (P : Handle → Type 0) (h : Handle) (c : List Handle) → P h → All P c → All P (insert_chain h c)
unfolding insert_chain
All-insert_chain P h [] p a = (p, tt)
All-insert_chain P h (x ∷ xs) p a = elim (Bool-cases (matches h.key h.hash x)) [
  | inl found ↦ rw found (p, a.1)
  | inr other ↦ rw other (a.0, All-insert_chain P h xs p a.1)
]

-- Two searches for the same key and hash.
abbrev pub same_search : List ℕ → ℕ → List ℕ → ℕ → Bool
same_search k q key hash = (q == hash) && equals k key

pub same_search_eq :
    (k : List ℕ) (q : ℕ) (key : List ℕ) (hash : ℕ)
    → same_search k q key hash ≡ true
    → (q ≡ hash) × (k ≡ key)
same_search_eq k q key hash m =
    let first_equal : (q == hash) ≡ true = ground arith in
    let second_equal : equals k key ≡ true = ground arith in
    ((==_iff q hash).0 first_equal, (equals_iff k key).0 second_equal)

pub same_search-matches :
    (k : List ℕ) (q : ℕ) (key : List ℕ) (hash : ℕ) (x : Handle)
    → matches key hash x ≡ true
    → matches k q x ≡ same_search k q key hash
same_search-matches k q key hash x m =
    let found = matches_eq key hash x m in
    rw (found.0, ← found.1) (ground (arith, ==_iff hash q, ==_iff q hash))

same_search_other :
    (k : List ℕ) (q : ℕ) (key : List ℕ) (hash : ℕ) (x : Handle)
    → matches key hash x ≡ false
    → same_search k q key hash ≡ true
    → matches k q x ≡ false
same_search_other k q key hash x other m =
    let same = same_search_eq k q key hash m in rw same.0 (rw same.1 other)

pub occurs-remove_chain :
    (k : List ℕ) (q : ℕ) (key : List ℕ) (hash : ℕ) (c : List Handle)
    → occurs k q (remove_chain key hash c)
      ≡ (if same_search k q key hash then occurs k q c - 1 else occurs k q c)
unfolding remove_chain
occurs-remove_chain k q key hash [] = ground arith
occurs-remove_chain k q key hash (x ∷ xs) = elim (Bool-cases (matches key hash x)) [
  | inl found ↦ rw (found, same_search-matches k q key hash x found) (ground arith)
  | inr other ↦
      rw other (
        ground (arith, same_search_other k q key hash x other, occurs-remove_chain k q key hash xs))
]

pub first-remove_chain :
    (k : List ℕ) (q : ℕ) (key : List ℕ) (hash : ℕ) (c : List Handle)
    → same_search k q key hash ≡ false
    → first k q (remove_chain key hash c) ≡ first k q c
unfolding remove_chain
first-remove_chain k q key hash [] apart = refl
first-remove_chain k q key hash (x ∷ xs) apart = elim (Bool-cases (matches key hash x)) [
  | inl found ↦ rw (found, same_search-matches k q key hash x found, apart) refl
  | inr other ↦ rw other (ground (arith, first-remove_chain k q key hash xs))
]

pub length-remove_chain :
    (key : List ℕ) (hash : ℕ) (c : List Handle)
    → length (remove_chain key hash c) + (if occurs key hash c == 0 then 0 else 1) ≡ length c
unfolding remove_chain
length-remove_chain key hash [] = omega arith
length-remove_chain key hash (x ∷ xs) = ground (arith, length-remove_chain key hash xs)

pub All-remove_chain :
    (P : Handle → Type 0) (key : List ℕ) (hash : ℕ) (c : List Handle)
    → All P c
    → All P (remove_chain key hash c)
unfolding remove_chain
All-remove_chain P key hash [] a = tt
All-remove_chain P key hash (x ∷ xs) a = elim (Bool-cases (matches key hash x)) [
  | inl found ↦ rw found a.1
  | inr other ↦ rw other (a.0, All-remove_chain P key hash xs a.1)
]
