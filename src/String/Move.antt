-- ===== src/String/Move.antt =====
-- `memcpy`, `memmove` and `memset` of libc/string.cpp.
use yet_another_project_i_ll.Base.{
  ℕ, zero, suc, ◌+◌, ◌-◌, ◌%◌, ◌<◌, ◌≡◌, refl, ap, ◌∙◌, ◌≢◌, inl, inr, Bool, true, false, arith,
  ==_refl, ==_ne, Copied, Apart, Copied-step,
}
use yet_another_project_i_ll.String.{Memory, store, memset, memcpy, Allocator, memmove}
use native.Mathlib.Decide.{dec_lt, ℕ_discrete}

pub memcpy_copies :
    (n : ℕ) (mem : Memory) (dst src : ℕ)
    → Apart dst src n
    → Copied mem dst src n (memcpy mem dst src n)
unfolding memcpy store
memcpy_copies zero mem dst src apart = (λ i h. absurd (omega arith), λ a out. refl)
memcpy_copies (suc n) mem dst src apart =
    Copied-step mem _ dst src n apart
      (memcpy_copies n (store mem dst (mem src)) (dst + 1) (src + 1) (Apart-next apart))
  where
    Apart-next : Apart dst src (suc n) → Apart (dst + 1) (src + 1) n
    Apart-next (inl h) = inl (omega arith)
    Apart-next (inr h) = inr (omega arith)

-- What `malloc` and `free` do for a block of `size` bytes: it lies among the addresses in `heap_uses`,
-- and they change nothing at any other address.
pub record Serves (heap : Allocator) (mem : Memory) (size : ℕ) (heap_uses : ℕ → Bool) : Type 0 where
  pub block : (i : ℕ) → i < size → heap_uses ((heap.malloc mem size).1 + i) ≡ true
  pub malloc_keeps : (a : ℕ) → heap_uses a ≡ false → (heap.malloc mem size).0 a ≡ mem a
  pub free_keeps :
      (m : Memory) (a : ℕ) → heap_uses a ≡ false → heap.free m ((heap.malloc mem size).1) a ≡ m a

-- Two ranges of which one lies in the heap and the other does not
apart :
    (heap_uses : ℕ → Bool) (p q size : ℕ)
    → 0 < size
    → ((i : ℕ) → i < size → heap_uses (p + i) ≡ true)
    → ((i : ℕ) → i < size → heap_uses (q + i) ≡ false)
    → Apart p q size
apart heap_uses p q size positive inside outside = elim (dec_lt q (p + size)) [
  | no below ↦ inl (omega arith)
  | yes over ↦ elim (dec_lt p (q + size)) [
    | no above ↦ inr (omega arith)
    | yes meets ↦ elim (dec_lt p q) [
      | yes less ↦
          let same : p + (q - p) ≡ q + 0 = omega arith in
          absurd (cc (ap heap_uses same, inside (q - p) (omega arith), outside 0 positive))
      | no more ↦
          let same : q + (p - q) ≡ p + 0 = omega arith in
          absurd (cc (ap heap_uses same, outside (p - q) (omega arith), inside 0 positive))
    ]
  ]
]

-- However the two ranges overlap, `memmove` leaves at `dest` the bytes that were at `src` before, and
-- changes nothing outside of `dest` and of the addresses that `malloc` and `free` use. The block that
-- `malloc` gives is among those addresses, and neither range has one of them.
pub memmove_lem :
    (heap : Allocator) (mem : Memory) (dest src size : ℕ) (heap_uses : ℕ → Bool)
    → Serves heap mem size heap_uses
    → ((i : ℕ) → i < size → heap_uses (src + i) ≡ false)
    → ((i : ℕ) → i < size → heap_uses (dest + i) ≡ false)
    → ((i : ℕ) → i < size → memmove heap mem dest src size (dest + i) ≡ mem (src + i))
      × ((a : ℕ)
          → ((i : ℕ) → i < size → a ≢ dest + i)
          → heap_uses a ≡ false
          → memmove heap mem dest src size a ≡ mem a)
memmove_lem heap mem dest src size heap_uses serves src_apart dest_apart =
    elim (ℕ_discrete size 0) [
      | yes none_left ↦ (λ i h. absurd (omega arith), λ a out other. unfold memmove in rw none_left)
      | no some_left ↦
          let mem₁ : Memory = (heap.malloc mem size).0 in
          let temp : ℕ = (heap.malloc mem size).1 in
          let positive : 0 < size = omega arith in
          let first : Copied mem₁ temp src size (memcpy mem₁ temp src size) =
            memcpy_copies size mem₁ temp src
              (apart heap_uses temp src size positive serves.block src_apart) in
          let second : Copied (memcpy mem₁ temp src size) dest temp size _ =
            memcpy_copies size (memcpy mem₁ temp src size) dest temp
              (swap (apart heap_uses temp dest size positive serves.block dest_apart)) in
          (
            λ i h. rw (whole some_left) (
                serves.free_keeps _ (dest + i) (dest_apart i h)
                ∙ second.0 i h
                ∙ first.0 i h
                ∙ serves.malloc_keeps (src + i) (src_apart i h)),
            λ a out other. rw (whole some_left) (
                serves.free_keeps _ a other
                ∙ second.1 a out
                ∙ first.1 a (λ i h e. absurd (cc (e, other, serves.block i h)))
                ∙ serves.malloc_keeps a other),
          )
    ]
  where
    swap : Apart ((heap.malloc mem size).1) dest size → Apart dest ((heap.malloc mem size).1) size
    swap (inl h) = inr h
    swap (inr h) = inl h

    whole :
        size ≢ 0
        → memmove heap mem dest src size
          ≡ heap.free
              (memcpy
                (memcpy ((heap.malloc mem size).0) ((heap.malloc mem size).1) src size)
                dest
                ((heap.malloc mem size).1)
                size)
              ((heap.malloc mem size).1)
    whole ne = unfold memmove in rw (==_ne size 0 ne)

-- `g` is `mem` with the `n` bytes from `ptr` on set to `v`.
abbrev pub Filled : Memory → (ptr v n : ℕ) → Memory → Type 0
Filled mem ptr v n g =
    ((i : ℕ) → i < n → g (ptr + i) ≡ v) × ((a : ℕ) → ((i : ℕ) → i < n → a ≢ ptr + i) → g a ≡ mem a)

Filled-step :
    (mem g : Memory) (ptr v n : ℕ)
    → Filled (store mem ptr v) (ptr + 1) v n g
    → Filled mem ptr v (suc n) g
unfolding store
Filled-step mem g ptr v n (inside, outside) = (bytes, others)
  where
    bytes : (i : ℕ) → i < suc n → g (ptr + i) ≡ v
    bytes zero h =
        let p : ptr + 0 ≡ ptr = omega arith in
        rw p (outside ptr (λ i h e. omega arith) ∙ rw (==_refl ptr))
    bytes (suc i) h =
        let p : ptr + suc i ≡ ptr + 1 + i = omega arith in rw p (inside i (omega arith))

    others : (a : ℕ) → ((i : ℕ) → i < suc n → a ≢ ptr + i) → g a ≡ mem a
    others a out =
        let ne : a ≢ ptr = λ e. out 0 (omega arith) (omega arith) in
        outside a (λ i h e. out (suc i) (omega arith) (omega arith)) ∙ rw (==_ne a ptr ne)

-- `memset` fills `size` bytes with the low byte of `value` and writes nothing else.
pub memset_lem :
    (size : ℕ) (mem : Memory) (ptr value : ℕ)
    → Filled mem ptr (value % 256) size (memset mem ptr value size)
unfolding memset
memset_lem zero mem ptr value = (λ i h. absurd (omega arith), λ a out. refl)
memset_lem (suc size) mem ptr value =
    Filled-step mem _ ptr (value % 256) size
      (memset_lem size (store mem ptr (value % 256)) (ptr + 1) value)
