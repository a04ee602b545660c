-- ===== src/Log/Reader/Joins.antt =====
-- `ReadRecord` on a record that the format lays out in fragments.
use rocksutil.Base.{
  ℕ, zero, suc, ◌+◌, ◌-◌, ◌≤◌, ◌<◌, ◌≡◌, refl, sym, ap, ◌∙◌, subst, Bool, true, false, not, ltb,
  ltb→lt, Bool-cases, inl, inr, ◌⊎◌, Option, some, List, ◌++◌, append_assoc, length, replicate, All,
  IsByte, arith, length-append, length-replicate, All-split, take-append_eq, drop-append_eq,
}
use rocksutil.Log.{block_size, RecoveryMode}
use rocksutil.Log.Layout.{Laid, pad, end, split, physical, type_of, size_of_header}
use rocksutil.Log.Reader.{Reader, SequentialFile}
use rocksutil.Log.Reader.Record.{Assembly, read_record_loop}
use rocksutil.Log.Reader.State.{IsSource, IsClean, At, Short, Ready}
use rocksutil.Log.Reader.Fragments.{length-physical}
use rocksutil.Log.Reader.Steps.{Found, joined, ended, continued, skipped}

header-long : (recycle : Bool) → (7 ≤ size_of_header recycle) × (size_of_header recycle ≤ 11)
header-long true = (omega arith, omega arith)
header-long false = (omega arith, omega arith)

Laid-long :
    {recycle : Bool} {n : ℕ} {begin : Bool} {o o' : ℕ} {p bytes : List ℕ}
    → Laid recycle n o begin p bytes o'
    → 0 < length bytes
Laid-long (pad bytes {o = o} low high l) =
    ground (arith, Laid-long l, length-append (replicate (block_size - o) 0) bytes)
Laid-long {recycle = recycle} {n = n} (end {begin = begin} {p = p} at fits) =
    ground (arith, length-physical recycle n (type_of recycle begin true) p, header-long recycle)
Laid-long {recycle = recycle} {n = n} (split p q bytes {begin = begin} fills some_left l) =
    ground
      (arith, Laid-long l, length-append (physical recycle n (type_of recycle begin false) p) bytes)

module _ {ℓ} {F : Type ℓ} (f : SequentialFile F) (remaining : F → List ℕ)
    (source : IsSource f remaining) (recycle : Bool) (n : ℕ) (mode : RecoveryMode) where
  -- A fragment that continues a record stands at the front of a block.
  abbrev Fronts : Bool → ℕ → Type 0
  Fronts begin o = begin ≡ false → (o ≡ 0) ⊎ (o ≡ block_size)

  refound :
      {r r₁ : Reader F} {o : ℕ} {tail p p₁ : List ℕ} {x x₁ : Option (Reader F × Option (List ℕ))}
      → x ≡ x₁
      → p₁ ≡ p
      → r₁.reports ≡ r.reports
      → Found f remaining source recycle n mode r₁ o tail p₁ x₁
      → Found f remaining source recycle n mode r o tail p x
  refound goes same told found = record {
    after = found.after;
    returned = goes ∙ found.returned ∙ ap (λ q. some (found.after, some q)) same;
    ready = found.ready;
    sound = found.sound;
    reports = found.reports ∙ told;
  }

  joined-append :
      (a : Assembly F) (begin : Bool) (p q : List ℕ)
      → joined f remaining source recycle n mode a begin p ++ q
        ≡ joined f remaining source recycle n mode a begin (p ++ q)
  joined-append a true p q = refl
  joined-append a false p q = append_assoc a.scratch p q

  -- At zeros that fill up a block, and are too few for the shorter header.
  few_zeros :
      (r : Reader F) (o k : ℕ) (s : List ℕ)
      → o + k ≡ block_size
      → k < 7
      → 0 < length s
      → At remaining r o (replicate k 0 ++ s)
      → Short remaining r s
  few_zeros r o k s fills few some_left at =
      let zeros : List ℕ = replicate k 0 in
      let room : block_size - o ≡ k = omega arith in
      let size : length zeros ≡ k = length-replicate k 0 in
      let buffer : r.buffer ≡ zeros = at.buffer ∙ rw room (take-append_eq k zeros s size) in
      let file : remaining r.file ≡ s = at.file ∙ rw room (drop-append_eq k zeros s size) in
      let open_file : r.eof ≡ true → r.eof ≡ false =
        λ e. absurd (ground (arith, at.eof e, length-append zeros s, size, room)) in
      record {
        buffer = rw (buffer, size) few;
        file = file;
        eof = elim (Bool-cases r.eof) [ inl e ↦ open_file e | inr e ↦ e ];
      }

  -- Where a record is laid out from the reader's offset in its block on, whoever wrote it, the loop
  -- of `ReadRecord` returns it, in any mode, with what is assembled before it if it is the rest of a
  -- record, which then stands at the front or at the end of a block. It reports nothing and leaves a
  -- reader for what follows. As many rounds as the record has bytes are enough. The reader starts at
  -- the front of its file, has met no error, and has the log number that recyclable records hold.
  pub Laid-Found :
      {o o' : ℕ} {begin : Bool} {p bytes : List ℕ}
      → Laid recycle n o begin p bytes o'
      → (rounds : ℕ) (a : Assembly F) (tail : List ℕ) → length bytes ≤ rounds
      → a.in_fragmented_record ≡ not begin
      → Fronts begin o
      → IsClean recycle n a.reader
      → All IsByte p
      → Ready remaining a.reader o (bytes ++ tail)
      → Found f remaining source recycle n mode a.reader o' tail
          (joined f remaining source recycle n mode a begin p)
          (read_record_loop f rounds mode a)
  unfolding Ready
  Laid-Found (end {begin = begin} {p = p} at fits) zero a tail enough inside front sound bytes
        ready =
      absurd (
        ground
          (arith, length-physical recycle n (type_of recycle begin true) p, header-long recycle))
  Laid-Found (end {begin = begin} {p = p} at fits) (suc rounds) a tail enough inside front sound
        bytes ready =
      subst
        (λ k.
          Found f remaining source recycle n mode a.reader k tail
            (joined f remaining source recycle n mode a begin p)
            (read_record_loop f (suc rounds) mode a))
        (sym at)
        (ended f remaining source recycle n mode rounds begin a _ p tail inside sound bytes
          (omega arith) ready)
  Laid-Found (split p q more {begin = begin} fills some_left l) zero a tail enough inside front
        sound bytes ready =
      absurd (
        ground (
          arith,
          length-append (physical recycle n (type_of recycle begin false) p) more,
          length-physical recycle n (type_of recycle begin false) p,
          header-long recycle,
        ))
  Laid-Found (split p q more {begin = begin} fills some_left l) (suc rounds) a tail enough inside
        front sound bytes ready =
      let x : List ℕ = physical recycle n (type_of recycle begin false) p in
      let (front_bytes, left_bytes) = All-split IsByte p q bytes in
      let c =
        continued f remaining source recycle n mode rounds begin a _ p (more ++ tail) inside sound
          front_bytes (omega arith)
          (subst (Ready remaining a.reader _) (append_assoc x more tail) ready) in
      let fewer : length more ≤ rounds = ground (
        arith,
        length-append x more,
        length-physical recycle n (type_of recycle begin false) p,
        header-long recycle,
      ) in
      refound c.goes (ap (λ s. s ++ q) (c.assembled refl) ∙ joined-append a begin p q) c.reports (
        Laid-Found l rounds c.next tail fewer c.in_fragmented_record (λ e. inr refl) c.sound
          left_bytes
          (subst (λ k. Ready remaining c.next.reader k (more ++ tail)) (sym fills) c.ready))
  Laid-Found (pad more low high l) rounds a tail enough inside front sound bytes
        (inr (at_zero, short)) =
      absurd (ground (arith, header-long recycle))
  Laid-Found (pad more {o = o} {begin = begin} {p = p} low high l) zero a tail enough inside front
        sound bytes (inl at) =
      absurd (ground (arith, Laid-long l, length-append (replicate (block_size - o) 0) more))
  Laid-Found (pad more {o = o} {begin = begin} {p = p} low high l) (suc rounds) a tail enough inside
        front sound bytes (inl at) =
      let k : ℕ = block_size - o in
      let zeros : List ℕ = replicate k 0 in
      let s : List ℕ = more ++ tail in
      let some_left : 0 < length s = ground (arith, Laid-long l, length-append more tail) in
      let at' : At remaining a.reader o (zeros ++ s) =
        subst (At remaining a.reader o) (append_assoc zeros more tail) at in
      let size : length (zeros ++ more) ≡ k + length more =
        length-append zeros more ∙ ap (λ j. j + length more) (length-replicate k 0) in
      elim (Bool-cases (ltb k 7)) [
        | inl few ↦
            let short = few_zeros a.reader o k s (omega arith) (ltb→lt k 7 few) some_left at' in
            Laid-Found l (suc rounds) a tail (omega arith) inside (λ e. inl refl) sound bytes
              (inr (refl, short))
        | inr many ↦
            let long : 7 ≤ k = ground arith in
            let starts : begin ≡ true = elim (Bool-cases begin) [
              | inl e ↦ e
              | inr e ↦ absurd (ground (arith, front e, header-long recycle))
            ] in
            let c =
              skipped f remaining source recycle n mode rounds k a o s (inside ∙ ap not starts)
                sound (omega arith) long some_left at' in
            let same : (b : Bool)
                → b ≡ true
                → joined f remaining source recycle n mode c.next b p
                  ≡ joined f remaining source recycle n mode a b p =
              λ b e. rw e refl in
            refound c.goes (same begin starts) c.reports (
              Laid-Found l rounds c.next tail (omega arith)
                (c.in_fragmented_record ∙ sym (ap not starts)) (λ e. inl refl) c.sound bytes
                c.ready)
      ]
