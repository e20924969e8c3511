-- ===== src/String.antt =====
-- libc/string.cpp: the C string and memory functions over a memory of bytes. Memory is a function
-- from addresses to bytes, and a function that writes returns the memory that it leaves. A loop that
-- runs to a terminator takes fuel, and a run that needs more rounds than its fuel is `abort`.
pub mod Move
pub mod Scan
pub mod Strcpy
pub mod Blocks
mod Tests
use yet_another_project_i_ll.Base.{
  ℕ, zero, suc, ◌+◌, ◌-◌, ◌%◌, true, false, not, ◌&&◌, Option, none, some, List, [], ◌∷◌, ltb, ◌==◌,
  if◌then◌else◌, ℤ, pos, negsuc, ◌-ℤ◌, Outcome, ok, abort, ◌>>=◌, ◌>>◌,
}

abbrev pub Memory : Type 0
Memory = ℕ → ℕ

-- `*p = v`
unfoldable pub store : Memory → ℕ → ℕ → Memory
store mem p v a = if a == p then v else mem a

-- `*p` as a `char`, which is signed here
unfoldable pub schar : ℕ → ℤ
schar c = if ltb c 128 then pos c else negsuc (255 - c)

-- Bytes written to memory one after the other
unfoldable pub put_bytes : Memory → (dst : ℕ) → List ℕ → Memory
put_bytes mem dst [] = mem
put_bytes mem dst (b ∷ bs) = put_bytes (store mem dst b) (dst + 1) bs

unfoldable pub memset : Memory → (ptr value size : ℕ) → Memory
memset mem ptr value zero = mem
memset mem ptr value (suc size) = memset (store mem ptr (value % 256)) (ptr + 1) value size

unfoldable pub memcpy : Memory → (dst src num : ℕ) → Memory
memcpy mem dst src zero = mem
memcpy mem dst src (suc num) = memcpy (store mem dst (mem src)) (dst + 1) (src + 1) num

-- `malloc` and `free` as far as their callers see them: `malloc` gives an address, 0 when it has no
-- memory, and both change the memory where they keep their own data.
pub record Allocator : Type 0 where
  pub malloc : Memory → ℕ → Memory × ℕ
  pub free : Memory → ℕ → Memory

-- The address that `malloc` returns is not looked at. A copy of no bytes returns at once.
unfoldable pub memmove : Allocator → Memory → (dest src size : ℕ) → Memory
memmove heap mem dest src size =
    if size == 0
    then mem
    else (let (mem₁, temp) = heap.malloc mem size in
        heap.free (memcpy (memcpy mem₁ temp src size) dest temp size) temp)

unfoldable pub strlen_from : ℕ → Memory → (str len : ℕ) → Outcome ℕ
strlen_from zero mem str len = abort
strlen_from (suc fuel) mem str len = elim (mem (str + len) == 0) [
  | true ↦ ok len
  | false ↦ strlen_from fuel mem str (len + 1)
]

unfoldable pub strlen : ℕ → Memory → ℕ → Outcome ℕ
strlen fuel mem str = strlen_from fuel mem str 0

-- The memory, and the pointer that is returned: the loops advance `dst` itself.
unfoldable pub strncpy : ℕ → Memory → (dst src num : ℕ) → Outcome (Memory × ℕ)
strncpy fuel mem dst src num = do
  len ← strlen fuel mem src
  let cpy = if ltb len num then len else num
  ok (memset (memcpy mem dst src cpy) (dst + cpy) 0 (num - cpy), dst + cpy + (num - cpy))

unfoldable pub strcpy : ℕ → Memory → (dst src : ℕ) → Outcome (Memory × ℕ)
strcpy fuel mem dst src = do len ← strlen fuel mem src; strncpy fuel mem dst src len

-- `while (*s1 && (*s1 == *s2) && n--) …; return n ? (*s1 - *s2) : 0`. The test that stops the loop
-- at `n == 0` leaves `n` at SIZE_MAX.
unfoldable pub strncmp_loop : ℕ → Memory → (s1 s2 n : ℕ) → Outcome ℤ
strncmp_loop zero mem s1 s2 n = abort
strncmp_loop (suc fuel) mem s1 s2 n = elim (not (mem s1 == 0) && mem s1 == mem s2) [
  | false ↦ ok (if n == 0 then pos 0 else schar (mem s1) -ℤ schar (mem s2))
  | true ↦ elim (n == 0) [
    | true ↦ ok (schar (mem s1) -ℤ schar (mem s2))
    | false ↦ strncmp_loop fuel mem (s1 + 1) (s2 + 1) (n - 1)
  ]
]

unfoldable pub strncmp : ℕ → Memory → (s1 s2 n : ℕ) → Outcome ℤ
strncmp fuel mem s1 s2 n = if n == 0 then ok (pos 0) else strncmp_loop fuel mem s1 s2 n

unfoldable pub strcmp : ℕ → Memory → (s1 s2 : ℕ) → Outcome ℤ
strcmp zero mem s1 s2 = abort
strcmp (suc fuel) mem s1 s2 = elim (not (mem s1 == 0) && mem s1 == mem s2) [
  | true ↦ strcmp fuel mem (s1 + 1) (s2 + 1)
  | false ↦ ok (schar (mem s1) -ℤ schar (mem s2))
]

-- The bytes are unsigned here. The last one read may be the one behind the buffers.
unfoldable pub memcmp : Memory → (lhs rhs size : ℕ) → ℤ
memcmp mem lhs rhs zero = pos (mem lhs) -ℤ pos (mem rhs)
memcmp mem lhs rhs (suc size) = elim (mem lhs == mem rhs) [
  | true ↦ memcmp mem (lhs + 1) (rhs + 1) size
  | false ↦ pos (mem lhs) -ℤ pos (mem rhs)
]

-- the inner loop of `strstr`: the `j` at which it stops
unfoldable pub match_from : ℕ → Memory → (str substr j : ℕ) → Outcome ℕ
match_from zero mem str substr j = abort
match_from (suc fuel) mem str substr j =
    elim (not (mem (str + j) == 0) && mem (str + j) == mem (substr + j)) [
      | true ↦ match_from fuel mem str substr (j + 1)
      | false ↦ ok j
    ]

unfoldable pub strstr_loop : ℕ → ℕ → Memory → (str substr i : ℕ) → Outcome (Option ℕ)
strstr_loop inner zero mem str substr i = abort
strstr_loop inner (suc fuel) mem str substr i = elim (mem (str + i) == 0) [
  | true ↦ ok none
  | false ↦ match_from inner mem (str + i) substr 0 >>= λ j. elim (mem (substr + j) == 0) [
    | true ↦ ok (some (str + i))
    | false ↦ strstr_loop inner fuel mem str substr (i + 1)
  ]
]

unfoldable pub strstr : ℕ → Memory → (str substr : ℕ) → Outcome (Option ℕ)
strstr fuel mem str substr =
    if mem substr == 0 then ok (some str) else strstr_loop fuel fuel mem str substr 0

-- `static_cast<char>(c)` is the low byte.
unfoldable pub strchr : ℕ → Memory → (src c : ℕ) → Outcome (Option ℕ)
strchr zero mem src c = abort
strchr (suc fuel) mem src c = elim (not (mem src == 0) && not (mem src == c % 256)) [
  | true ↦ strchr fuel mem (src + 1) c
  | false ↦ ok (if mem src == c % 256 then some src else none)
]
