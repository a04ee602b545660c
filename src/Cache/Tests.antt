-- ===== src/Cache/Tests.antt =====
-- Runs of rutil/lru_cache.cc.
use rocksutil.Base.{
  ℕ, ◌+◌, ◌*◌, ◌/◌, ◌≤◌, ◌≡◌, refl, true, false, ltb, leb, if◌then◌else◌, none, some, List, [], ◌∷◌,
  ◌++◌, arith, ◌⊎◌, inl, add64,
}
use rocksutil.Status.{ok_status}
use rocksutil.Cache.Handles.{charges, Handle, Memory, write, matches}
use rocksutil.Cache.Table
use rocksutil.Cache.Table.Bucket.{same_search}
use rocksutil.Cache.Table.Resize.{IsTable, empty-IsTable, find-empty}
use rocksutil.Cache.Table.Insertion.{insert-IsTable, find-insert}
use rocksutil.Cache.Table.Removal.{find-remove}
use rocksutil.Cache.Shard.{Doubles, Shard, evict_from_lru}
use rocksutil.Cache.Shard.Operations.{
  set_high_priority_pool_ratio, insert, lookup, release, erase, set_capacity, erase_unref_entries,
}
use rocksutil.Cache.Shard.Invariant.{IsValid}
use rocksutil.Cache.Shard.Initial.{new_shard, ready, ready-IsValid, set_up}
use rocksutil.Cache.Shard.Store.{stored-Books}
use rocksutil.Cache.Shard.Pin.{write-Agree}
use rocksutil.Cache.Shard.Eviction.{IsEvicted}
use rocksutil.Cache.Shard.Needed.{Needed, evict_from_lru-Needed}
use rocksutil.Cache.Shard.Capacity.{set_capacity-IsValid, erase_unref_entries-IsValid}
use rocksutil.Cache.Shard.Ratio.{Overfull, set_high_priority_pool_ratio-IsValid}
use rocksutil.Cache.Shard.Lookup.{clients, Referred, lookup-IsValid}
use rocksutil.Cache.Shard.Release.{release-IsValid}
use rocksutil.Cache.Shard.Erase.{Keeps, clients_erased, Forgets, erase-IsValid}
use rocksutil.Cache.Shard.Admission.{Reports, insert_wanted-IsValid, insert_unwanted-IsValid}

percent_fits : (capacity ratio : ℕ) → leb ratio 100 ≡ true → ltb (capacity * ratio / 100) 0 ≡ false
percent_fits capacity ratio h = ground arith

-- A `double` in hundredths.
abbrev percent : Doubles
percent = record {
  Double = ℕ;
  scale = λ capacity ratio. capacity * ratio / 100;
  exceeds = λ usage limit. ltb limit usage;
  positive = λ ratio. ltb 0 ratio;
  accepts = λ ratio. leb ratio 100;
  zero_fits = percent_fits;
}

abbrev garbage : Memory
garbage a = record { refs = 7; in_cache = false; in_high_pri_pool = true }

abbrev built : Shard ℕ
built = set_up percent 10 true 50 (new_shard 3 false 200 9 garbage)

abbrev nothing : Shard ℕ
nothing = ready percent 10 true 50 refl 3 false 200 9 garbage

nothing-IsValid : IsValid percent nothing []
nothing-IsValid = ready-IsValid percent 10 true 50 refl 3 false 200 9 garbage

abbrev apple : Handle
apple = record {
  address = 1;
  value = 11;
  deleter = true;
  charge = 4;
  key = 97 ∷ [];
  hash = 5;
  is_high_pri = true;
}

no_elems : Table.empty_table.elems ≡ 0
unfolding Table.empty_table Table.resize Table.resize_to Table.grow
no_elems = refl

insert_wanted-IsValid_example :
    (held : List Handle) × IsValid percent (insert percent apple true nothing).0 held
    × Keeps [] held
    × Reports nothing apple [] held (insert percent apple true nothing).1
insert_wanted-IsValid_example =
    insert_wanted-IsValid percent nothing [] nothing-IsValid apple refl (omega (arith, no_elems))
      (omega arith)

insert_unwanted-IsValid_example :
    (held : List Handle) × IsValid percent (insert percent apple false nothing).0 held
    × Keeps [] held
    × ((insert percent apple false nothing).1 ≡ (ok_status, none))
insert_unwanted-IsValid_example =
    insert_unwanted-IsValid percent nothing [] nothing-IsValid apple refl (omega (arith, no_elems))
      (omega arith)

find-insert_example :
    Table.find (Table.insert apple Table.empty_table).0 (97 ∷ []) 5
    ≡ (if matches (97 ∷ []) 5 apple then some apple else Table.find Table.empty_table (97 ∷ []) 5)
find-insert_example =
    find-insert apple Table.empty_table empty-IsTable (omega (arith, no_elems)) (97 ∷ []) 5

abbrev with_apple : Table.Table
with_apple = (Table.insert apple Table.empty_table).0

with_apple-IsTable : IsTable with_apple
with_apple-IsTable = insert-IsTable apple Table.empty_table empty-IsTable (omega (arith, no_elems))

find-remove_example :
    Table.find (Table.remove (97 ∷ []) 5 with_apple).0 (97 ∷ []) 5
    ≡ (if same_search (97 ∷ []) 5 (97 ∷ []) 5 then none else Table.find with_apple (97 ∷ []) 5)
find-remove_example = find-remove (97 ∷ []) 5 with_apple with_apple-IsTable (97 ∷ []) 5

-- A client holds the handle.
abbrev lent : Memory
lent = write 1 (record { refs = 2; in_cache = true; in_high_pri_pool = false }) garbage

abbrev holding : Shard ℕ
holding = record nothing { usage = 4; table = with_apple; cells = lent }

holding-IsValid : IsValid percent holding (apple ∷ [])
holding-IsValid = record {
  books =
      stored-Books percent nothing [] nothing-IsValid.books apple refl lent
        (write-Agree 1 (record { refs = 2; in_cache = true; in_high_pri_pool = false }) garbage)
        with_apple with_apple-IsTable
        (find-insert apple Table.empty_table empty-IsTable (omega (arith, no_elems)))
        (find-empty (97 ∷ []) 5)
        (record { referenced = omega arith; cached = λ _. omega arith; bounded = omega arith }) refl
        (omega arith);
  ratio_accepted = refl;
  full = λ over. absurd (omega arith);
}

lookup-IsValid_example :
    ((lookup (97 ∷ []) 5 holding).1 ≡ Table.find with_apple (97 ∷ []) 5)
    × IsValid percent
        (lookup (97 ∷ []) 5 holding).0
        (clients (Table.find with_apple (97 ∷ []) 5) holding (apple ∷ []))
    × Referred (Table.find with_apple (97 ∷ []) 5) holding (lookup (97 ∷ []) 5 holding).0
lookup-IsValid_example =
    lookup-IsValid percent holding (apple ∷ []) holding-IsValid (omega arith, tt) (97 ∷ []) 5

release-IsValid_example : IsValid percent (release percent (some apple) holding) []
release-IsValid_example =
    release-IsValid percent holding (apple ∷ []) holding-IsValid apple (inl refl)

erase-IsValid_example :
    IsValid percent
      (erase (97 ∷ []) 5 holding)
      (clients_erased (Table.find with_apple (97 ∷ []) 5) holding (apple ∷ []))
    × Forgets (97 ∷ []) 5 holding (erase (97 ∷ []) 5 holding)
erase-IsValid_example = erase-IsValid percent holding (apple ∷ []) holding-IsValid (97 ∷ []) 5

-- The handle is in the LRU list.
abbrev resting : Shard ℕ
resting = release percent (some apple) holding

resting-IsValid : IsValid percent resting []
resting-IsValid = release-IsValid percent holding (apple ∷ []) holding-IsValid apple (inl refl)

set_capacity-IsValid_example :
    IsValid percent (set_capacity percent 1 resting) []
    × ((set_capacity percent 1 resting).capacity ≡ 1)
    × (((set_capacity percent 1 resting).usage ≤ 1) ⊎ ((set_capacity percent 1 resting).usage ≡ 0))
set_capacity-IsValid_example = set_capacity-IsValid percent [] 1 resting resting-IsValid

erase_unref_entries-IsValid_example :
    IsValid percent (erase_unref_entries resting) [] × ((erase_unref_entries resting).usage ≡ 0)
erase_unref_entries-IsValid_example = erase_unref_entries-IsValid percent [] resting resting-IsValid

-- A charge of 9 does not fit beside the entry, of charge 4, in a capacity of 10.
evict_from_lru-Needed_example :
    IsEvicted percent [] resting (evict_from_lru 9 resting).0 (evict_from_lru 9 resting).1
    × Needed resting.capacity 9 resting.usage (evict_from_lru 9 resting).1
    × ((evict_from_lru 9 resting).0.usage + charges (evict_from_lru 9 resting).1 ≡ resting.usage)
    × ((add64 (evict_from_lru 9 resting).0.usage 9 ≤ resting.capacity)
        ⊎ ((evict_from_lru 9 resting).0.low ++ (evict_from_lru 9 resting).0.high ≡ []))
evict_from_lru-Needed_example = evict_from_lru-Needed percent [] 9 resting resting-IsValid.books

abbrev squeezed : Shard ℕ
squeezed = set_high_priority_pool_ratio percent 10 resting

set_high_priority_pool_ratio-IsValid_example :
    IsValid percent squeezed []
    × (squeezed.high_pri_pool_ratio ≡ 10)
    × (squeezed.high_pri_pool_capacity ≡ resting.capacity * 10 / 100)
    × (ltb (resting.capacity * 10 / 100) squeezed.high_pri_pool_usage ≡ false)
    × (moved : List Handle) × (resting.high ≡ moved ++ squeezed.high)
    × (squeezed.low ≡ resting.low ++ moved)
    × Overfull percent (resting.capacity * 10 / 100) resting.high_pri_pool_usage moved
set_high_priority_pool_ratio-IsValid_example =
    set_high_priority_pool_ratio-IsValid percent [] 10 resting refl resting-IsValid
