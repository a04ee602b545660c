-- ===== src/Cache/Table/Removal.antt =====
-- rutil/lru_cache.cc: `LRUHandleTable::Remove`.
use rocksutil.Base.{
  ℕ, ◌+◌, ◌≤◌, ◌≡◌, refl, ap, ◌∙◌, ◌==◌, ==_iff, ==_refl, if◌then◌else◌, Bool-cases, Option-cases,
  none, some, List, [], set, get_or, length, arith, inl, inr,
}
use rocksutil.Slice.{equals_iff}
use rocksutil.Cache.Handles.{Handle}
use rocksutil.Cache.Table.{Table, index, find, bucket, unlink, remove, remove_chain}
use rocksutil.Cache.Table.Bucket.{
  occurs, first, occurs-first, first-some, same_search, same_search_eq, first-remove_chain,
  occurs-remove_chain, length-remove_chain, All-remove_chain,
}
use rocksutil.Cache.Table.Total.{total, total-set}
use rocksutil.Cache.Table.Array.{look, look-set, IsArray, set-IsArray, here_of, inside}
use rocksutil.Cache.Table.Resize.{IsTable, all_here}

module _ (key : List ℕ) (hash : ℕ) (t : Table) (v : IsTable t) where
  chains : List (List Handle)
  chains = set t.list (index t.length hash) (remove_chain key hash (bucket t hash))

  chains-IsArray : IsArray t.length chains
  unfolding chains
  chains-IsArray =
      set-IsArray t.length t.list hash (remove_chain key hash (bucket t hash)) v.array (
        All-remove_chain (λ x. index t.length x.hash ≡ index t.length hash) key hash (bucket t hash)
          (here_of t.length t.list hash v.array))

  chains_once : (k : List ℕ) (q : ℕ) → total (occurs k q) chains ≤ 1
  unfolding chains
  chains_once k q = ground (
    arith,
    total-set (occurs k q) t.list (index t.length hash) (remove_chain key hash (bucket t hash))
        (inside t.length t.list hash v.array),
    occurs-remove_chain k q key hash (bucket t hash),
    v.once k q,
  )

  -- A search for the removed key.
  look_gone : look t.length chains key hash ≡ none
  unfolding chains
  look_gone =
      let here = all_here t v key hash in
      let once = v.once key hash in
      look-set t.length t.list hash (remove_chain key hash (bucket t hash)) key hash v.array
      ∙ rw (==_refl (index t.length hash)) (
          occurs-first key hash (remove_chain key hash (bucket t hash)) (
            occurs-remove_chain key hash key hash (bucket t hash)
            ∙ rw (==_refl hash, (equals_iff key key).1 refl) (omega arith)))

  look-chains :
      (k : List ℕ) (q : ℕ)
      → look t.length chains k q ≡ (if same_search k q key hash then none else find t k q)
  unfolding chains find
  look-chains k q = elim (Bool-cases (same_search k q key hash)) [
    | inl same ↦
        let equal = same_search_eq k q key hash same in
        rw same (rw (equal.0) (rw (equal.1) look_gone))
    | inr apart ↦ rw apart (
        look-set t.length t.list hash (remove_chain key hash (bucket t hash)) k q v.array
        ∙ elim (Bool-cases (index t.length hash == index t.length q)) [
          | inl same ↦
              rw (same, first-remove_chain k q key hash (bucket t hash) apart)
                (ap (λ i. first k q (get_or t.list i []))
                  ((==_iff (index t.length hash) (index t.length q)).0 same))
          | inr elsewhere ↦ rw elsewhere refl
        ])
  ]

  module _ (e : Handle) (found : find t key hash ≡ some e) where
    found_occurs : 1 ≤ occurs key hash (bucket t hash)
    found_occurs = first-some key hash (bucket t hash) e (unfold find in found)

    shrunk_count : total length chains + 1 ≡ t.elems
    unfolding chains
    shrunk_count =
        let sums =
          total-set length t.list (index t.length hash) (remove_chain key hash (bucket t hash))
            (inside t.length t.list hash v.array) in
        ground (arith, sums, found_occurs, length-remove_chain key hash (bucket t hash), v.counted)

    unlink-IsTable : IsTable (unlink key hash t (some e)).0
    unfolding unlink chains
    unlink-IsTable = record {
      array = chains-IsArray;
      once = chains_once;
      counted = omega (arith, shrunk_count, v.small);
      light = omega (arith, shrunk_count, v.small, v.light);
      small = omega (arith, shrunk_count, v.small);
      intact = v.intact;
    }

    find-unlink :
        (k : List ℕ) (q : ℕ)
        → find (unlink key hash t (some e)).0 k q
          ≡ (if same_search k q key hash then none else find t k q)
    unfolding unlink chains find
    find-unlink k q = look-chains k q

    elems-unlink : (unlink key hash t (some e)).0.elems + 1 ≡ t.elems
    unfolding unlink
    elems-unlink = omega (arith, shrunk_count, v.small)

  pub remove-IsTable : IsTable (remove key hash t).0
  unfolding remove
  remove-IsTable = elim (Option-cases (find t key hash)) [
    | inl missing ↦ rw missing (unfold unlink in v)
    | inr (e, found) ↦ rw found (unlink-IsTable e found)
  ]

  pub remove_result : (remove key hash t).1 ≡ find t key hash
  unfolding remove unlink
  remove_result = elim (Option-cases (find t key hash)) [
    | inl missing ↦ rw (missing, unlink) refl
    | inr (e, found) ↦ rw (found, unlink) refl
  ]

  -- After `Remove` a search finds nothing for the key and the hash, and what it found before for
  -- all others.
  pub find-remove :
      (k : List ℕ) (q : ℕ)
      → find (remove key hash t).0 k q ≡ (if same_search k q key hash then none else find t k q)
  unfolding remove unlink
  find-remove k q = elim (Option-cases (find t key hash)) [
    | inl missing ↦
        rw (missing, unlink)
          (elim (Bool-cases (same_search k q key hash)) [
            | inl same ↦
                let equal = same_search_eq k q key hash same in
                rw same (rw equal.0 (rw equal.1 missing))
            | inr apart ↦ rw apart refl
          ])
    | inr (e, found) ↦ rw found (find-unlink e found k q)
  ]

-- Nothing to remove.
pub remove_missing :
    (key : List ℕ) (hash : ℕ) (t : Table) → find t key hash ≡ none → (remove key hash t).0 ≡ t
unfolding remove unlink
remove_missing key hash t missing = rw (missing, unlink) refl

pub elems-remove :
    (key : List ℕ) (hash : ℕ) (t : Table) → IsTable t → (remove key hash t).0.elems ≤ t.elems
unfolding remove
elems-remove key hash t v = elim (Option-cases (find t key hash)) [
  | inl missing ↦ rw missing (unfold unlink in omega arith)
  | inr (e, found) ↦ rw found (omega (arith, elems-unlink key hash t v e found))
]
