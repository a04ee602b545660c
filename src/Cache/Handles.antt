-- ===== src/Cache/Handles.antt =====
-- rutil/lru_cache.h: `LRUHandle`, lists of handles, and the memory of their mutable fields.
use rocksutil.Base.{
  ℕ, ◌+◌, ◌≤◌, ◌≡◌, refl, sym, ap, ◌∙◌, Bool, true, false, ◌&&◌, ◌==◌, ==_iff, ==_refl, subst,
  if◌then◌else◌, Bool-cases, List, [], ◌∷◌, ◌++◌, All, arith, ◌⊎◌, inl, inr,
}
use rocksutil.Slice.{equals}

-- A handle: its address, and the fields that `Insert` sets and nothing changes. `deleter` tells
-- whether the pointer is not null, `is_high_pri` is the flag of this name.
pub record Handle : Type 0 where
  pub address : ℕ
  pub value : ℕ
  pub deleter : Bool
  pub charge : ℕ
  pub key : List ℕ
  pub hash : ℕ
  pub is_high_pri : Bool

-- The fields that change.
pub record Cell : Type 0 where
  pub refs : ℕ
  pub in_cache : Bool
  pub in_high_pri_pool : Bool

abbrev pub Memory : Type 0
Memory = ℕ → Cell

abbrev pub write : ℕ → Cell → Memory → Memory
write a c m b = if a == b then c else m b

-- `(*ptr)->hash != hash || key != (*ptr)->key()`, negated
abbrev pub matches : List ℕ → ℕ → Handle → Bool
matches key hash h = (h.hash == hash) && equals key h.key

-- A list without the handle at the address.
abbrev pub remove : Handle → List Handle → List Handle
remove e [] = []
remove e (h ∷ hs) = if h.address == e.address then hs else h ∷ remove e hs

abbrev pub charges : List Handle → ℕ
charges [] = 0
charges (h ∷ hs) = h.charge + charges hs

-- How often an address stands in a list.
abbrev pub count : ℕ → List Handle → ℕ
count a [] = 0
count a (h ∷ hs) = (if h.address == a then 1 else 0) + count a hs

abbrev pub In : Handle → List Handle → Type 0
In e [] = ⊥
In e (h ∷ hs) = (e ≡ h) ⊎ In e hs

pub charges-append : (xs ys : List Handle) → charges (xs ++ ys) ≡ charges xs + charges ys
charges-append [] ys = omega arith
charges-append (x ∷ xs) ys = omega (arith, charges-append xs ys)

pub count-append : (a : ℕ) (xs ys : List Handle) → count a (xs ++ ys) ≡ count a xs + count a ys
count-append a [] ys = omega arith
count-append a (x ∷ xs) ys = ground (arith, count-append a xs ys)

pub count-In : (e : Handle) (xs : List Handle) → In e xs → 1 ≤ count e.address xs
count-In e [] i = elim i [ ]
count-In e (x ∷ xs) (inl same) = rw (ap (λ h. h.address) same, ==_refl x.address) (omega arith)
count-In e (x ∷ xs) (inr i) = ground (arith, count-In e xs i)

pub charges-remove :
    (e : Handle) (xs : List Handle)
    → In e xs
    → count e.address xs ≤ 1
    → charges (remove e xs) + e.charge ≡ charges xs
charges-remove e [] i once = elim i [ ]
charges-remove e (x ∷ xs) (inl same) once =
    rw (ap (λ h. h.address) same, ==_refl x.address) (omega (arith, ap (λ h. h.charge) same))
charges-remove e (x ∷ xs) (inr i) once = ground (arith, charges-remove e xs i, count-In e xs i)

pub count-remove :
    (a : ℕ) (e : Handle) (xs : List Handle)
    → In e xs
    → count a (remove e xs) + (if e.address == a then 1 else 0) ≡ count a xs
count-remove a e [] i = elim i [ ]
count-remove a e (x ∷ xs) (inl same) =
    rw (ap (λ h. h.address) same, ==_refl x.address) (omega arith)
count-remove a e (x ∷ xs) (inr i) = ground (arith, count-remove a e xs i)

pub remove_absent : (e : Handle) (xs : List Handle) → count e.address xs ≡ 0 → remove e xs ≡ xs
remove_absent e [] h = refl
remove_absent e (x ∷ xs) h = ground (arith, remove_absent e xs)

pub In-remove :
    (h e : Handle) (xs : List Handle)
    → In h xs
    → (h.address == e.address) ≡ false
    → In h (remove e xs)
In-remove h e [] i other = i
In-remove h e (x ∷ xs) (inl same) other =
    let moved = rw (ap (λ (k : Handle). k.address) same) at other in rw moved (inl same)
In-remove h e (x ∷ xs) (inr i) other = elim (Bool-cases (x.address == e.address)) [
  | inl here ↦ rw here i
  | inr there ↦ rw there (inr (In-remove h e xs i other))
]

In-remove_tail :
    (h e x : Handle) (xs : List Handle)
    → In h (x ∷ remove e xs)
    → (In h (remove e xs) → In h xs)
    → In h (x ∷ xs)
In-remove_tail h e x xs (inl same) ih = inl same
In-remove_tail h e x xs (inr i) ih = inr (ih i)

pub In-remove' : (h e : Handle) (xs : List Handle) → In h (remove e xs) → In h xs
In-remove' h e [] i = i
In-remove' h e (x ∷ xs) i = elim (Bool-cases (x.address == e.address)) [
  | inl here ↦ inr (rw here at i)
  | inr there ↦ In-remove_tail h e x xs (rw there at i) (In-remove' h e xs)
]

pub All-remove {κ} :
    (P : Handle → Type κ) (e : Handle) (xs : List Handle) → All P xs → All P (remove e xs)
All-remove P e [] a = tt
All-remove P e (x ∷ xs) a = elim (Bool-cases (x.address == e.address)) [
  | inl here ↦ rw here a.1
  | inr there ↦ rw there (a.0, All-remove P e xs a.1)
]

pub All-In {κ} : (P : Handle → Type κ) (e : Handle) (xs : List Handle) → All P xs → In e xs → P e
All-In P e [] a i = elim i [ ]
All-In P e (x ∷ xs) a (inl same) = subst P (sym same) a.0
All-In P e (x ∷ xs) a (inr i) = All-In P e xs a.1 i

-- A write at an address that no handle of the list has.
pub All-write :
    (P : Cell → Type 0) (a : ℕ) (c : Cell) (m : Memory) (xs : List Handle)
    → count a xs ≡ 0
    → All (λ h. P (m h.address)) xs
    → All (λ h. P (write a c m h.address)) xs
All-write P a c m [] none_here all = tt
All-write P a c m (x ∷ xs) none_here all = elim (Bool-cases (a == x.address)) [
  | inl same ↦ ground (arith, (==_iff a x.address).0 same)
  | inr other ↦ rw other (all.0, All-write P a c m xs (ground arith) all.1)
]

pub In-append_left : (h : Handle) (xs ys : List Handle) → In h xs → In h (xs ++ ys)
In-append_left h [] ys i = elim i [ ]
In-append_left h (x ∷ xs) ys (inl same) = inl same
In-append_left h (x ∷ xs) ys (inr i) = inr (In-append_left h xs ys i)

pub In-append_right : (h : Handle) (xs ys : List Handle) → In h ys → In h (xs ++ ys)
In-append_right h [] ys i = i
In-append_right h (x ∷ xs) ys i = inr (In-append_right h xs ys i)

-- Handles of a list without repeated addresses are told apart by these.
pub In-unique :
    (h e : Handle) (xs : List Handle)
    → In h xs
    → In e xs
    → h.address ≡ e.address
    → count e.address xs ≤ 1
    → h ≡ e
In-unique h e [] i j same once = elim i [ ]
In-unique h e (x ∷ xs) (inl p) (inl q) same once = p ∙ sym q
In-unique h e (x ∷ xs) (inl p) (inr j) same once =
    let here : (x.address == e.address) ≡ true =
      (==_iff x.address e.address).1 (ap (λ k. k.address) (sym p) ∙ same) in
    absurd (ground (arith, here, once, count-In e xs j))
In-unique h e (x ∷ xs) (inr i) (inl q) same once =
    let here : (x.address == e.address) ≡ true =
      (==_iff x.address e.address).1 (ap (λ k. k.address) (sym q)) in
    let more : 1 ≤ count e.address xs = rw (← same) (count-In h xs i) in
    absurd (ground (arith, here, once, more))
In-unique h e (x ∷ xs) (inr i) (inr j) same once = In-unique h e xs i j same (ground arith)

pub All-refine {κ} :
    (P Q : Handle → Type κ) (xs : List Handle)
    → ((h : Handle) → In h xs → P h → Q h)
    → All P xs
    → All Q xs
All-refine P Q [] step all = tt
All-refine P Q (x ∷ xs) step all =
    (step x (inl refl) all.0, All-refine P Q xs (λ h i. step h (inr i)) all.1)

pub All-snoc {κ} :
    (P : Handle → Type κ) (xs : List Handle) (e : Handle) → All P xs → P e → All P (xs ++ e ∷ [])
All-snoc P [] e all p = (p, tt)
All-snoc P (x ∷ xs) e all p = (all.0, All-snoc P xs e all.1 p)

pub All-append {κ} :
    (P : Handle → Type κ) (xs ys : List Handle) → All P xs → All P ys → All P (xs ++ ys)
All-append P [] ys all more = more
All-append P (x ∷ xs) ys all more = (all.0, All-append P xs ys all.1 more)

pub All-both {κ} :
    (P Q R : Handle → Type κ) (xs : List Handle)
    → ((h : Handle) → P h → Q h → R h)
    → All P xs
    → All Q xs
    → All R xs
All-both P Q R [] step all more = tt
All-both P Q R (x ∷ xs) step all more = (step x all.0 more.0, All-both P Q R xs step all.1 more.1)

pub All-of {κ} :
    (P : Handle → Type κ) (xs : List Handle) → ((h : Handle) → In h xs → P h) → All P xs
All-of P [] step = tt
All-of P (x ∷ xs) step = (step x (inl refl), All-of P xs (λ h i. step h (inr i)))
