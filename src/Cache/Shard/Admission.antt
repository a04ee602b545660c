-- ===== src/Cache/Shard/Admission.antt =====
-- rutil/lru_cache.cc: `Insert` as a whole.
use rocksutil.Base.{
  ◌+◌, ◌*◌, ◌^◌, ◌≤◌, ◌<◌, ◌≡◌, refl, sym, ap, ◌∙◌, Bool, true, false, Bool-cases, Option, none,
  some, List, [], ◌∷◌, ◌++◌, arith, ◌⊎◌, inl, inr,
}
use rocksutil.Status.{Status, ok_status}
use rocksutil.Cache.Handles.{Handle, charges, In}
use rocksutil.Cache.Shard.{Doubles, Shard, cell, free_all}
use rocksutil.Cache.Shard.Operations.{insert, insert_end, insert_entry}
use rocksutil.Cache.Shard.Invariant.{Books, IsValid}
use rocksutil.Cache.Shard.Store.{IsFresh}
use rocksutil.Cache.Shard.Erase.{Keeps}
use rocksutil.Cache.Shard.Insert.{
  IsNew, insert_wanted, insert_wanted_empty, insert_unwanted, left, left-Keeps,
}
use rocksutil.Cache.Shard.Full.{full_status, full_of, not_full_of, not_over}
use rocksutil.Cache.Shard.Room.{
  same_strict, usage_parts, stored-IsValid, over, cell_still, charge_fits, deleted, elems_room,
  ends, evicted, evicted-IsValid, evicted_freed, filled, IsFresh-still, insert_lem, refused,
  refused-IsValid, refused_lem, same_capacity, stored, evicted-IsEvicted,
}

-- The charge of the handle fits beside what clients hold, or the limit is not strict.
abbrev pub Fits : {D : Type 0} → Shard D → Handle → List Handle → Type 0
Fits s e pinned = (s.strict_capacity_limit ≡ false) ⊎ (charges pinned + e.charge ≤ s.capacity)

abbrev pub Overfills : {D : Type 0} → Shard D → Handle → List Handle → Type 0
Overfills s e pinned = (s.strict_capacity_limit ≡ true) × (s.capacity < charges pinned + e.charge)

-- What `Insert` reports to a client that wants the handle, when, and what clients then hold.
abbrev pub Reports :
    {D : Type 0} → Shard D → Handle → List Handle → List Handle → Status × Option Handle → Type 0
Reports s e pinned held result =
    ((result ≡ (ok_status, some e)) × In e held × Fits s e pinned)
    ⊎ ((result ≡ (full_status, none)) × (held ≡ pinned) × Overfills s e pinned)

module _ (d : Doubles) (s : Shard d.Double) (pinned : List Handle) (v : IsValid d s pinned)
    (e : Handle) (fresh : IsFresh e s pinned) (room : 3 * (s.table.elems + 1) ≤ 2 ^ 32)
    (fits : s.usage + e.charge < 2 ^ 64) where
  module _ (wanted : Bool) where
    after_eviction : Shard d.Double
    after_eviction = evicted d s pinned v e fresh wanted room fits

    Books-after : Books d after_eviction pinned
    unfolding after_eviction
    Books-after = (evicted-IsEvicted d s pinned v e fresh wanted room fits).books

    still-IsFresh : IsFresh e after_eviction pinned
    unfolding after_eviction
    still-IsFresh = IsFresh-still d s pinned v e fresh wanted room fits

    still_room : 3 * (after_eviction.table.elems + 1) ≤ 2 ^ 32
    unfolding after_eviction
    still_room = elems_room d s pinned v e fresh wanted room fits

    still_fits : after_eviction.usage + e.charge < 2 ^ 64
    unfolding after_eviction
    still_fits = charge_fits d s pinned v e fresh wanted room fits

    IsNew-cell : IsNew wanted (cell e after_eviction)
    unfolding after_eviction
    IsNew-cell =
        let same = cell_still d s pinned v e fresh wanted room fits in
        record {
          refs_new = ap (λ c. c.refs) same ∙ (unfold filled in refl);
          cached = ap (λ c. c.in_cache) same ∙ (unfold filled in refl);
        }

  refused_why : over d s pinned v e fresh true room fits ≡ true → Overfills s e pinned
  unfolding after_eviction
  refused_why full =
      let r = after_eviction true in
      let (strict, above) =
        full_of r.capacity r.usage r.lru_usage (charges pinned) e.charge r.strict_capacity_limit
          (usage_parts d s pinned v e fresh true room fits) (still_fits true) full in
      let capacity = same_capacity d s pinned v e fresh true room fits in
      (sym (same_strict d s pinned v e fresh true room fits) ∙ strict, omega arith)

  accepted_why : over d s pinned v e fresh true room fits ≡ false → Fits s e pinned
  unfolding after_eviction
  accepted_why free_room =
      let r = after_eviction true in
      let capacity = same_capacity d s pinned v e fresh true room fits in
      let strict = same_strict d s pinned v e fresh true room fits in
      elim (not_full_of r.capacity r.usage r.lru_usage (charges pinned) e.charge
        r.strict_capacity_limit (usage_parts d s pinned v e fresh true room fits) (still_fits true)
        free_room) [ inl lax ↦ inl (sym strict ∙ lax) | inr below ↦ inr (omega arith) ]

  -- `Insert` for a client that wants the handle, at an address that no handle of the shard has,
  -- while the table may grow and the sizes fit in 64 bits, keeps the shard in order and its
  -- assertions hold. What clients held they still hold. Where the limit is not strict, or the charge
  -- fits in the capacity beside what clients hold, it reports success and they hold the handle
  -- as well; otherwise it reports a full cache and they hold no other.
  pub insert_wanted-IsValid :
      (held : List Handle) × IsValid d (insert d e true s).0 held
      × Keeps pinned held
      × Reports s e pinned held (insert d e true s).1
  unfolding insert_end after_eviction stored
  insert_wanted-IsValid =
      let r = after_eviction true in
      let z = insert_entry d e true r in
      let all = insert_lem d s pinned v e fresh true room fits in
      elim (Bool-cases (over d s pinned v e fresh true room fits)) [
        | inl full ↦
            let end : insert d e true s
                ≡ (free_all (deleted d s pinned v e fresh true room fits) r, (full_status, none)) =
              all
              ∙ ap (λ b. insert_end d b true e (r, deleted d s pinned v e fresh true room fits) z)
                  full in
            let valid : IsValid d (free_all (deleted d s pinned v e fresh true room fits) r)
                pinned =
              rw (evicted_freed d s pinned v e fresh true room fits)
                (evicted-IsValid d s pinned v e fresh true room fits) in
            (pinned, rw end valid, λ h j. j, inr (ap (λ x. x.1) end, refl, refused_why full))
        | inr free_room ↦
            let end : insert d e true s ≡ (
              free_all (deleted d s pinned v e fresh true room fits ++ z.1) z.0,
              (ok_status, some e),
            ) =
              all
              ∙ ap (λ b. insert_end d b true e (r, deleted d s pinned v e fresh true room fits) z)
                  free_room in
            let held =
              e
              ∷ left d r pinned (Books-after true) e (still-IsFresh true) (still_room true)
                  (still_fits true) in
            let inserted =
              insert_wanted d r pinned (Books-after true) e (still-IsFresh true) (still_room true)
                (still_fits true) (IsNew-cell true) in
            let room_left : (r.usage + e.charge ≤ s.capacity) ⊎ ((z.0.low ≡ []) × (z.0.high ≡ [])) =
              elim (ends d s pinned v e fresh true room fits) [
                | inl enough ↦ inl enough
                | inr lists ↦ inr (
                    insert_wanted_empty d r pinned (Books-after true) e (still-IsFresh true)
                      (still_room true) (still_fits true) lists)
              ] in
            let valid =
              stored-IsValid d s pinned v e fresh true room fits held z.0 z.1 inserted room_left in
            (
              held,
              rw end valid,
              λ h j. inr (
                  left-Keeps d r pinned (Books-after true) e (still-IsFresh true) (still_room true)
                    (still_fits true) h j),
              inl (ap (λ x. x.1) end, inl refl, accepted_why free_room),
            )
      ]

  -- `Insert` for a client that does not want the handle keeps the shard in order under the same
  -- conditions, with its assertions, and reports success. What clients held they still hold.
  pub insert_unwanted-IsValid :
      (held : List Handle) × IsValid d (insert d e false s).0 held
      × Keeps pinned held
      × ((insert d e false s).1 ≡ (ok_status, none))
  unfolding insert_end after_eviction stored
  insert_unwanted-IsValid =
      let r = after_eviction false in
      let z = insert_entry d e false r in
      let all = insert_lem d s pinned v e fresh false room fits in
      elim (Bool-cases (over d s pinned v e fresh false room fits)) [
        | inl full ↦
            let end : insert d e false s ≡ (
              free_all (deleted d s pinned v e fresh false room fits ++ e ∷ []) r,
              (ok_status, none),
            ) =
              all
              ∙ ap (λ b. insert_end d b false e (r, deleted d s pinned v e fresh false room fits) z)
                  full in
            let cell_now : free_all (deleted d s pinned v e fresh false room fits ++ e ∷ []) r
                ≡ refused d s pinned v e fresh false room fits =
              unfold filled in refused_lem d s pinned v e fresh false room fits refl refl in
            let valid : IsValid d
                (free_all (deleted d s pinned v e fresh false room fits ++ e ∷ []) r) pinned =
              rw cell_now (refused-IsValid d s pinned v e fresh false room fits) in
            (pinned, rw end valid, λ h j. j, ap (λ x. x.1) end)
        | inr free_room ↦
            let end : insert d e false s ≡ (
              free_all (deleted d s pinned v e fresh false room fits ++ z.1) z.0,
              (ok_status, none),
            ) =
              all
              ∙ ap (λ b. insert_end d b false e (r, deleted d s pinned v e fresh false room fits) z)
                  free_room in
            let held =
              left d r pinned (Books-after false) e (still-IsFresh false) (still_room false)
                (still_fits false) in
            let inserted =
              insert_unwanted d r pinned (Books-after false) e (still-IsFresh false)
                (still_room false) (still_fits false) (IsNew-cell false) in
            let room_left : (r.usage + e.charge ≤ s.capacity) ⊎ ((z.0.low ≡ []) × (z.0.high ≡ [])) =
              elim (ends d s pinned v e fresh false room fits) [
                | inl enough ↦ inl enough
                | inr lists ↦
                    let low : charges r.low ≡ 0 = ap charges lists.0 in
                    let high : charges r.high ≡ 0 = ap charges lists.1 in
                    let nothing : r.lru_usage ≡ 0 = omega (arith, (Books-after false).lru_sum) in
                    let capacity = same_capacity d s pinned v e fresh false room fits in
                    inl (
                      omega (
                        arith,
                        not_over r.capacity r.usage r.lru_usage e.charge r.strict_capacity_limit
                            nothing (still_fits false) free_room,
                      ))
              ] in
            let valid =
              stored-IsValid d s pinned v e fresh false room fits held z.0 z.1 inserted room_left in
            (
              held,
              rw end valid,
              left-Keeps d r pinned (Books-after false) e (still-IsFresh false) (still_room false)
                  (still_fits false),
              ap (λ x. x.1) end,
            )
      ]
