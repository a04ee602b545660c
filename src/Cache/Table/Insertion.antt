-- ===== src/Cache/Table/Insertion.antt =====
-- rutil/lru_cache.cc: `LRUHandleTable::Insert`.
use rocksutil.Base.{
  ℕ, suc, ◌+◌, ◌*◌, ◌^◌, ◌%◌, ◌≤◌, ◌≡◌, refl, sym, ap, ◌∙◌, ◌==◌, ==_iff, ltb, if◌then◌else◌,
  Bool-cases, Option-cases, none, some, List, [], set, get_or, length, arith, inl, inr, u32_mod,
}
use rocksutil.Cache.Handles.{Handle, matches}
use rocksutil.Cache.Table.{Table, index, find, bucket, link, insert, insert_chain, resize}
use rocksutil.Cache.Table.Bucket.{
  occurs, first, first-occurs, first-some, first-insert_chain, occurs-insert_chain,
  length-insert_chain, All-insert_chain, matches_eq,
}
use rocksutil.Cache.Table.Total.{total, total-set, matches_elsewhere}
use rocksutil.Cache.Table.Array.{look, look-set, IsArray, set-IsArray, here_of, inside}
use rocksutil.Cache.Table.Resize.{IsTable, resize-IsTable, find-resize, all_here}

module _ (h : Handle) (t : Table) (v : IsTable t) where
  chains : List (List Handle)
  chains = set t.list (index t.length h.hash) (insert_chain h (bucket t h.hash))

  chains-IsArray : IsArray t.length chains
  unfolding chains
  chains-IsArray = set-IsArray t.length t.list h.hash (insert_chain h (bucket t h.hash)) v.array (
      All-insert_chain (λ x. index t.length x.hash ≡ index t.length h.hash) h (bucket t h.hash) refl
        (here_of t.length t.list h.hash v.array))

  chains_once : (k : List ℕ) (q : ℕ) → total (occurs k q) chains ≤ 1
  unfolding chains
  chains_once k q =
      let sums =
        total-set (occurs k q) t.list (index t.length h.hash) (insert_chain h (bucket t h.hash))
          (inside t.length t.list h.hash v.array) in
      let now = occurs-insert_chain k q h (bucket t h.hash) in
      let before = v.once k q in
      elim (Bool-cases (matches k q h)) [
        | inl found ↦
            let same : occurs k q (bucket t q) ≡ occurs k q (bucket t h.hash) =
              ap (λ x. occurs k q (bucket t x)) (sym (matches_eq k q h found).0) in
            let all = all_here t v k q in ground arith
        | inr other ↦ ground arith
      ]

  look-chains :
      (k : List ℕ) (q : ℕ)
      → look t.length chains k q ≡ (if matches k q h then some h else find t k q)
  unfolding chains find
  look-chains k q =
      look-set t.length t.list h.hash (insert_chain h (bucket t h.hash)) k q v.array
      ∙ elim (Bool-cases (index t.length h.hash == index t.length q)) [
        | inl same ↦
            rw (same, first-insert_chain k q h (bucket t h.hash))
              (ap (λ x. if matches k q h then some h else x)
                (ap (λ i. first k q (get_or t.list i []))
                  ((==_iff (index t.length h.hash) (index t.length q)).0 same)))
        | inr apart ↦ rw (apart, matches_elsewhere t.length k q h apart) refl
      ]

  length-chains :
      total length chains
      ≡ (if occurs h.key h.hash (bucket t h.hash) == 0 then suc t.elems else t.elems)
  unfolding chains
  length-chains =
      let sums =
        total-set length t.list (index t.length h.hash) (insert_chain h (bucket t h.hash))
          (inside t.length t.list h.hash v.array) in
      ground (arith, sums, length-insert_chain h (bucket t h.hash), v.counted)

  old_occurs : (find t h.key h.hash ≡ none) → occurs h.key h.hash (bucket t h.hash) ≡ 0
  unfolding find
  old_occurs missing = first-occurs h.key h.hash (bucket t h.hash) missing

  old_found :
      (old : Handle) → find t h.key h.hash ≡ some old → 1 ≤ occurs h.key h.hash (bucket t h.hash)
  unfolding find
  old_found old found = first-some h.key h.hash (bucket t h.hash) old found

  -- The chains of the new table, when the key and the hash had no entry.
  grown : Table
  grown = record t { elems = t.elems + 1; list = chains }

  module _ (missing : find t h.key h.hash ≡ none) (room : 3 * (t.elems + 1) ≤ 2 ^ 32) where
    grown_count : total length chains ≡ t.elems + 1
    grown_count = ground (arith, length-chains, old_occurs missing)

    link_none : (link h t none).0 ≡ (if ltb t.length (t.elems + 1) then resize grown else grown)
    unfolding link grown chains
    link_none = let fits : (t.elems + 1) % u32_mod ≡ t.elems + 1 = omega arith in rw fits refl

    link_none-IsTable : IsTable (link h t none).0
    unfolding grown
    link_none-IsTable = rw link_none (elim (Bool-cases (ltb t.length (t.elems + 1))) [
      | inl full ↦ rw full (
          resize-IsTable grown chains-IsArray.placed chains-IsArray.shaped chains_once grown_count
            room v.intact)
      | inr free ↦ rw free record {
        array = chains-IsArray;
        once = chains_once;
        counted = grown_count;
        light = ground arith;
        small = room;
        intact = v.intact;
      }
    ])

    find-link_none :
        (k : List ℕ) (q : ℕ)
        → find (link h t none).0 k q ≡ (if matches k q h then some h else find t k q)
    unfolding grown
    find-link_none k q = rw link_none (elim (Bool-cases (ltb t.length (t.elems + 1))) [
      | inl full ↦ rw full (
          find-resize grown chains-IsArray.placed chains-IsArray.shaped chains_once grown_count room
            v.intact k q
          ∙ unfold find in look-chains k q)
      | inr free ↦ rw free (unfold find in look-chains k q)
    ])

  module _ (old : Handle) (found : find t h.key h.hash ≡ some old) where
    link-some-IsTable : IsTable (link h t (some old)).0
    unfolding link chains
    link-some-IsTable = record {
      array = chains-IsArray;
      once = chains_once;
      counted = ground (arith, length-chains, old_found old found);
      light = v.light;
      small = v.small;
      intact = v.intact;
    }

    find-link-some :
        (k : List ℕ) (q : ℕ)
        → find (link h t (some old)).0 k q ≡ (if matches k q h then some h else find t k q)
    unfolding link chains find
    find-link-some k q = look-chains k q

  -- The table after `Insert`, when there is room for another handle.
  pub insert-IsTable : 3 * (t.elems + 1) ≤ 2 ^ 32 → IsTable (insert h t).0
  unfolding insert
  insert-IsTable room = elim (Option-cases (find t h.key h.hash)) [
    | inl missing ↦ rw missing (link_none-IsTable missing room)
    | inr (old, found) ↦ rw found (link-some-IsTable old found)
  ]

  pub insert_old : (insert h t).1 ≡ find t h.key h.hash
  unfolding insert link
  insert_old = elim (Option-cases (find t h.key h.hash)) [
    | inl missing ↦ rw (missing, link) refl
    | inr (old, found) ↦ rw (found, link) refl
  ]

  -- After `Insert`, with `Resize` where it is called, a search finds the new handle for its key and
  -- hash, and what it found before for all others, if three times the new number of entries is at
  -- most 2 ^ 32.
  pub find-insert :
      3 * (t.elems + 1) ≤ 2 ^ 32
      → (k : List ℕ) (q : ℕ)
      → find (insert h t).0 k q ≡ (if matches k q h then some h else find t k q)
  unfolding insert
  find-insert room k q = elim (Option-cases (find t h.key h.hash)) [
    | inl missing ↦ rw missing (find-link_none missing room k q)
    | inr (old, found) ↦ rw found (find-link-some old found k q)
  ]
