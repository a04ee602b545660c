-- ===== src/Cache/Shard/Release.antt =====
-- rutil/lru_cache.cc: `Release`.
use rocksutil.Base.{
  ◌-◌, ◌≤◌, ◌≡◌, refl, ap, ◌∙◌, true, false, ◌&&◌, ◌==◌, ==_iff, ==_refl, ltb, ltb→lt,
  if◌then◌else◌, Bool-cases, some, List, ◌∷◌, ◌++◌, arith, inl, inr, sub64,
}
use rocksutil.Cache.Handles.{Handle, Cell, Memory, write, remove, In, charges-remove, All-In}
use rocksutil.Cache.Table
use rocksutil.Cache.Shard.{
  Doubles, Shard, cell, set_cell, set_in_cache, table_remove, sub_usage, unref, free, lru_insert,
}
use rocksutil.Cache.Shard.Operations.{release, release_idle, release_over, is_empty}
use rocksutil.Cache.Shard.Invariant.{
  Held, Books, IsValid, configured-Books, check-true, unref_lem, dropped,
}
use rocksutil.Cache.Shard.Forget.{Agree, sub64_lem}
use rocksutil.Cache.Shard.Evict.{Dead}
use rocksutil.Cache.Shard.Eviction.{free-Dead}
use rocksutil.Cache.Shard.Pin.{recounted-Books, write-Agree}
use rocksutil.Cache.Shard.Unpin.{released, released-Books, removed-Without, uncached-Without}
use rocksutil.Cache.Shard.Return.{lru_insert-IsReturned}

busy :
    (c : Cell)
    → 2 ≤ c.refs
    → (c.in_cache ≡ true → 3 ≤ c.refs)
    → (c.refs - 1 == 1 && c.in_cache) ≡ false
busy c two three = elim (Bool-cases c.in_cache) [
  | inl cached ↦ let more = three cached in ground arith
  | inr out ↦ rw out (ground arith)
]

module _ (d : Doubles) (s : Shard d.Double) (pinned : List Handle) (v : IsValid d s pinned)
    (e : Handle) (i : In e pinned) where
  held : Held (cell e s)
  held = All-In (λ h. Held (s.cells h.address)) e pinned v.books.held i

  found_e : (cell e s).in_cache ≡ true → Table.find s.table e.key e.hash ≡ some e
  found_e =
      All-In (λ h. (s.cells h.address).in_cache ≡ true → Table.find s.table h.key h.hash ≡ some h) e
        pinned v.books.pinned_found i

  abbrev fewer : Cell
  fewer = record (cell e s) { refs = (cell e s).refs - 1 }

  unref_now : unref e s ≡ (set_cell e fewer s, (cell e s).refs - 1 == 0)
  unref_now = unref_lem e s v.books.intact held.referenced held.bounded

  paid : sub64 s.usage e.charge ≡ s.usage - e.charge
  paid =
      let rest = charges-remove e pinned i (omega (arith, v.books.apart e.address)) in
      let whole = v.books.sum in sub64_lem s.usage e.charge (omega arith) v.books.small

  -- References are left, and others than the cache's.
  release_more :
      (2 ≤ (cell e s).refs)
      → ((cell e s).in_cache ≡ true → 3 ≤ (cell e s).refs)
      → release d (some e) s ≡ set_cell e fewer s
  unfolding release
  release_more two three =
      let not_last : ((cell e s).refs - 1 == 0) ≡ false = ground (arith, two) in
      let not_idle : ((cell e s).refs - 1 == 1 && (cell e s).in_cache) ≡ false =
        busy (cell e s) two three in
      rw (unref_now, not_last, ==_refl e.address, not_idle) refl

  -- The last reference goes, and the table had no entry.
  release_last :
      (cell e s).refs ≡ 1
      → (cell e s).in_cache ≡ false
      → release d (some e) s
        ≡ record (released e s.table (write e.address fewer s.cells) s) { freed = e ∷ s.freed }
  unfolding release
  release_last one out =
      let last : ((cell e s).refs - 1 == 0) ≡ true = ground (arith, one) in
      let not_idle : ((cell e s).refs - 1 == 1 && (cell e s).in_cache) ≡ false =
        rw (out) (ground arith) in
      let fits = paid in
      let Dead-now : Dead (write e.address fewer s.cells e.address) =
        rw (==_refl e.address) (omega (arith, one), out) in
      rw (unref_now, last, ==_refl e.address, not_idle)
        (free-Dead e (sub_usage e.charge (set_cell e fewer s)) v.books.intact Dead-now
          ∙ ap
              (λ u. record s {
                usage = u;
                cells = write e.address fewer s.cells;
                freed = e ∷ s.freed;
              })
              paid)

  module _ (two : (cell e s).refs ≡ 2) (cached : (cell e s).in_cache ≡ true) where
    not_last : ((cell e s).refs - 1 == 0) ≡ false
    not_last = ground (arith, two)

    now_idle : ((cell e s).refs - 1 == 1 && (cell e s).in_cache) ≡ true
    now_idle = rw cached (ground (arith, two))

    -- The capacity is not exceeded: the handle goes back to the list.
    release_back :
        ltb s.capacity s.usage ≡ false → release d (some e) s ≡ lru_insert d e (set_cell e fewer s)
    unfolding release release_idle
    release_back room = rw (unref_now, not_last, ==_refl e.address, now_idle, room) refl

    -- The capacity is exceeded: the list is empty, and the handle leaves the cache.
    start : Shard d.Double
    start = set_in_cache e false (table_remove e (set_cell e fewer s))

    gone : Memory
    gone = (dropped e start).cells

    emptied : Shard d.Double
    emptied = record (released e (Table.remove e.key e.hash s.table).0 gone s) {
      freed = e ∷ s.freed;
    }

    refs_now : (cell e start).refs ≡ 1
    unfolding start
    refs_now = rw (==_refl e.address) (omega (arith, two))

    gone_now : Dead (gone e.address)
    unfolding gone start
    gone_now = rw (==_refl e.address) (omega (arith, two), refl)

    gone-Agree : Agree e.address s.cells gone
    unfolding gone start
    gone-Agree b other = rw other refl

    release_over_lem :
        ltb s.capacity s.usage ≡ true
        → release_over d e (set_cell e fewer s)
          ≡ released e (Table.remove e.key e.hash s.table).0 gone s
    unfolding release_over gone start
    release_over_lem over =
        let lists = v.full (ltb→lt s.capacity s.usage over) in
        let no_entries : is_empty (s.low ++ s.high) ≡ true = rw (lists.0, lists.1) refl in
        let finish : Shard d.Double → Shard d.Double =
          λ t. sub_usage e.charge (unref e (set_in_cache e false (table_remove e t))).0 in
        let second =
          unref_lem e start v.books.intact (omega (arith, refs_now)) (omega (arith, refs_now)) in
        ap finish
          (check-true (is_empty (s.low ++ s.high)) (set_cell e fewer s) v.books.intact no_entries)
        ∙ ap (λ t. sub_usage e.charge t.0) second
        ∙ ap (λ u. record (released e (Table.remove e.key e.hash s.table).0 gone s) { usage = u })
            paid

    release_out : ltb s.capacity s.usage ≡ true → release d (some e) s ≡ emptied
    unfolding release release_idle emptied
    release_out over =
        rw (unref_now, not_last, ==_refl e.address, now_idle, over)
          (ap (free e) (release_over_lem over)
            ∙ free-Dead e (released e (Table.remove e.key e.hash s.table).0 gone s) v.books.intact
                gone_now)

    emptied-Books : Books d emptied (remove e pinned)
    unfolding emptied
    emptied-Books =
        let books =
          released-Books d s pinned v.books e i gone gone-Agree
            (Table.remove e.key e.hash s.table).0
            (removed-Without e s.table v.books.table_IsTable (found_e cached)) in
        configured-Books d (released e (Table.remove e.key e.hash s.table).0 gone s)
          (remove e pinned) books s.capacity s.strict_capacity_limit s.high_pri_pool_ratio
          s.high_pri_pool_capacity (e ∷ s.freed) v.books.pool_fits

  -- The handles that clients hold after one reference to `e` was given back.
  abbrev pub clients_left : List Handle
  clients_left =
      if (cell e s).refs == 1
      then remove e pinned
      else if (cell e s).refs == 2 && (cell e s).in_cache
      then remove e pinned
      else pinned

  out_of_cache : (cell e s).refs ≡ 1 → (cell e s).in_cache ≡ false
  out_of_cache one = elim (Bool-cases (cell e s).in_cache) [
    | inl cached ↦ absurd (omega (arith, held.cached cached))
    | inr out ↦ out
  ]

  IsValid-last : (cell e s).refs ≡ 1 → IsValid d (release d (some e) s) (remove e pinned)
  IsValid-last one =
      let out = out_of_cache one in
      let m : Memory = write e.address fewer s.cells in
      let agree = write-Agree e.address fewer s.cells in
      let books =
        released-Books d s pinned v.books e i m agree s.table
          (uncached-Without d s pinned v.books e i m agree out) in
      rw (release_last one out) record {
        books =
            configured-Books d (released e s.table m s) (remove e pinned) books s.capacity
              s.strict_capacity_limit s.high_pri_pool_ratio s.high_pri_pool_capacity (e ∷ s.freed)
              v.books.pool_fits;
        ratio_accepted = v.ratio_accepted;
        full = λ over. v.full (omega arith);
      }

  IsValid-idle :
      (cell e s).refs ≡ 2
      → (cell e s).in_cache ≡ true
      → IsValid d (release d (some e) s) (remove e pinned)
  IsValid-idle two cached = elim (Bool-cases (ltb s.capacity s.usage)) [
    | inl over ↦ rw (release_out two cached over) record {
      books = emptied-Books two cached;
      ratio_accepted = unfold emptied in v.ratio_accepted;
      full = unfold emptied in λ still. v.full (omega arith);
    }
    | inr room ↦
        let w =
          lru_insert-IsReturned d s pinned v.books e i (found_e cached) fewer (omega arith)
            cached in
        rw (release_back two cached room) record {
          books = w.books;
          ratio_accepted = rw w.same_ratio v.ratio_accepted;
          full = λ over. absurd (ground (arith, room, over, w.same_capacity, w.same_usage));
        }
  ]

  IsValid-more :
      ((cell e s).refs == 1) ≡ false
      → ((cell e s).refs == 2 && (cell e s).in_cache) ≡ false
      → IsValid d (release d (some e) s) pinned
  IsValid-more not_one not_two =
      let many : 2 ≤ (cell e s).refs = ground (arith, held.referenced, not_one) in
      let three : (cell e s).in_cache ≡ true → 3 ≤ (cell e s).refs =
        λ cached. ground (arith, many, not_two, cached) in
      let ok : Held fewer = record {
        referenced = omega arith;
        cached = λ c. omega (arith, three c);
        bounded = omega (arith, held.bounded);
      } in
      rw (release_more many three) record {
        books = recounted-Books d s pinned v.books e fewer ok i refl;
        ratio_accepted = v.ratio_accepted;
        full = v.full;
      }

  -- `Release` of a handle that clients hold keeps the shard in order, and its assertions hold.
  -- Clients hold it no more if this was the last reference, or the last but the cache's.
  pub release-IsValid : IsValid d (release d (some e) s) clients_left
  release-IsValid = elim (Bool-cases ((cell e s).refs == 1)) [
    | inl one ↦ rw one (IsValid-last ((==_iff (cell e s).refs 1).0 one))
    | inr not_one ↦ rw not_one (elim (Bool-cases ((cell e s).refs == 2 && (cell e s).in_cache)) [
      | inl idle_now ↦
          rw idle_now (IsValid-idle (ground (arith, idle_now)) (ground (arith, idle_now)))
      | inr not_two ↦ rw not_two (IsValid-more not_one not_two)
    ])
  ]
