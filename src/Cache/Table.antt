-- ===== src/Cache/Table.antt =====
-- rutil/lru_cache.h and rutil/lru_cache.cc: `LRUHandleTable`, an array of chains of handles. A chain
-- is the list that `next_hash` links.
pub mod Bucket
pub mod Total
pub mod Array
pub mod Rehash
pub mod Resize
pub mod Insertion
pub mod Removal
use rocksutil.Base.{
  ℕ, zero, suc, ◌+◌, ◌-◌, ◌*◌, ◌%◌, Bool, true, false, not, ◌||◌, ◌==◌, ltb, if◌then◌else◌, Option,
  none, some, List, [], ◌∷◌, ◌++◌, replicate, set, get_or, length, bit_and, u32_mod,
}
use rocksutil.Cache.Handles.{Handle, matches}

-- `failed` tells that the assertion of `Resize` did not hold, or that its loop does not end.
pub record Table : Type 0 where
  pub length : ℕ
  pub elems : ℕ
  pub list : List (List Handle)
  pub failed : Bool

-- `hash & (length_ - 1)`
unfoldable pub index : ℕ → ℕ → ℕ
index len hash = bit_and hash (len - 1)

-- The walk of `FindPointer` along a chain: what it passes, and what the pointer then leads to.
abbrev pub find_pointer : List ℕ → ℕ → List Handle → List Handle × List Handle
find_pointer key hash [] = ([], [])
find_pointer key hash (h ∷ hs) =
    let rest = find_pointer key hash hs in
    if matches key hash h then ([], h ∷ hs) else (h ∷ rest.0, rest.1)

abbrev pub head : List Handle → Option Handle
head [] = none
head (h ∷ hs) = some h

abbrev pub tail : List Handle → List Handle
tail [] = []
tail (h ∷ hs) = hs

abbrev pub bucket : Table → ℕ → List Handle
bucket t hash = get_or t.list (index t.length hash) []

-- `Lookup`
unfoldable pub find : Table → List ℕ → ℕ → Option Handle
find t key hash = head (find_pointer key hash (bucket t hash)).1

-- `while (new_length < elems_ * 1.5) new_length *= 2`; `none` means that it does not end.
unfoldable pub grow : ℕ → ℕ → ℕ → Option ℕ
grow zero new_length elems = none
grow (suc rounds) new_length elems =
    let rest = grow rounds (new_length * 2 % u32_mod) elems in
    if ltb (2 * new_length) (3 * elems) then rest else some new_length

-- The body of the loop over a chain: the handle becomes the first of its new chain.
unfoldable pub move : ℕ → Handle → List (List Handle) → List (List Handle)
move len h lists = let i = index len h.hash in set lists i (h ∷ get_or lists i [])

-- The loops of `Resize`, with `count`.
unfoldable pub move_chain : ℕ → List Handle → List (List Handle) × ℕ → List (List Handle) × ℕ
move_chain len [] (lists, count) = (lists, count)
move_chain len (h ∷ hs) (lists, count) = move_chain len hs (move len h lists, (count + 1) % u32_mod)

unfoldable pub move_all : ℕ → List (List Handle) → List (List Handle) × ℕ → List (List Handle) × ℕ
move_all len [] s = s
move_all len (c ∷ cs) s = move_all len cs (move_chain len c s)

-- After 28 rounds `new_length` is 16 * 2 ^ 28, which is 0 as a `uint32_t`, and stays it.
abbrev pub resize_rounds : ℕ
resize_rounds = 28

-- `Resize`
unfoldable pub resize_to : Option ℕ → Table → Table
resize_to none t = record t { failed = true }
resize_to (some new_length) t =
    let moved = move_all new_length t.list (replicate new_length [], 0) in
    record {
      length = new_length;
      elems = t.elems;
      list = moved.0;
      failed = t.failed || not (t.elems == moved.1);
    }

unfoldable pub resize : Table → Table
resize t = resize_to (grow resize_rounds 16 t.elems) t

-- The constructor.
unfoldable pub empty_table : Table
empty_table = resize (record { length = 0; elems = 0; list = []; failed = false })

-- The chain after `*ptr = h` with `h->next_hash` that of the old entry.
unfoldable pub insert_chain : Handle → List Handle → List Handle
insert_chain h chain = let found = find_pointer h.key h.hash chain in found.0 ++ h ∷ tail found.1

-- `Insert` behind the search: the table, and the old entry.
unfoldable pub link : Handle → Table → Option Handle → Table × Option Handle
link h t none =
    let elems = (t.elems + 1) % u32_mod in
    let list = set t.list (index t.length h.hash) (insert_chain h (bucket t h.hash)) in
    let added = record t { elems = elems; list = list } in
    (if ltb t.length elems then resize added else added, none)
link h t (some old) =
    let list = set t.list (index t.length h.hash) (insert_chain h (bucket t h.hash)) in
    (record t { list = list }, some old)

-- `Insert`
unfoldable pub insert : Handle → Table → Table × Option Handle
insert h t = link h t (find t h.key h.hash)

unfoldable pub remove_chain : List ℕ → ℕ → List Handle → List Handle
remove_chain key hash chain = let found = find_pointer key hash chain in found.0 ++ tail found.1

-- `Remove` behind the search: the table, and the entry.
unfoldable pub unlink : List ℕ → ℕ → Table → Option Handle → Table × Option Handle
unlink key hash t none = (t, none)
unlink key hash t (some result) =
    let list = set t.list (index t.length hash) (remove_chain key hash (bucket t hash)) in
    (record t { elems = (t.elems + u32_mod - 1) % u32_mod; list = list }, some result)

-- `Remove`
unfoldable pub remove : List ℕ → ℕ → Table → Table × Option Handle
remove key hash t = unlink key hash t (find t key hash)
