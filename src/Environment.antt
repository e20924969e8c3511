-- ===== src/Environment.antt =====
-- The environment of a process: `Envp` of libc/include/libc/startup/globalstate.h, and
-- libc/globalstate.cpp and libc/getenv.cpp. A `std::string` is the list of its characters, and a C
-- string is the list of those before its terminator. The environment variables of the caller are
-- the list of the strings that `envp` points to, up to the null pointer.
pub mod Values
pub mod Packed
pub mod Loading
pub mod Table
mod Tests
use yet_another_project_i_ll.Base.{
  ℕ, zero, suc, ◌+◌, ◌*◌, Bool, true, false, not, ◌&&◌, Option, none, some, List, [], ◌∷◌, ◌++◌,
  leb, ◌==◌, if◌then◌else◌, length, take, drop, ℤ, pos, negsuc, Outcome, ok, abort, assert, is_some,
  word_bytes, ◌>>=◌, ◌>>◌,
}
use yet_another_project_i_ll.ResizableBuffer.{
  ResizableBuffer, capacity, empty, write_len_and_data, read_len, skip,
}
use yet_another_project_i_ll.String.{Memory, store, put_bytes, Allocator}

pub record EnvpPair : Type 0 where
  pub key : List ℕ
  pub val : List ℕ

abbrev pub Envp : Type 0
Envp = List EnvpPair

-- `operator==` of strings compares the lengths first.
unfoldable pub same_chars : List ℕ → List ℕ → Bool
same_chars [] [] = true
same_chars [] (y ∷ ys) = false
same_chars (x ∷ xs) [] = false
same_chars (x ∷ xs) (y ∷ ys) = if x == y then same_chars xs ys else false

unfoldable pub string_eq : List ℕ → List ℕ → Bool
string_eq xs ys = if length xs == length ys then same_chars xs ys else false

unfoldable pub get_val : Envp → (key : List ℕ) → Option (List ℕ)
get_val [] key = none
get_val (p ∷ ps) key = if string_eq p.key key then some p.val else get_val ps key

-- A write through the pointer that `getVal` returns
unfoldable pub assign : Envp → (key val : List ℕ) → Envp
assign [] key val = []
assign (p ∷ ps) key val =
    if string_eq p.key key then record p { val = val } ∷ ps else p ∷ assign ps key val

abbrev pub add : Envp → (key val : List ℕ) → Envp
add envp key val = envp ++ (record { key = key; val = val } ∷ [])

unfoldable pub set_val : Envp → (key val : List ℕ) → Envp
set_val envp key val = elim (get_val envp key) [
  | none ↦ add envp key val
  | some found ↦ assign envp key val
]

abbrev pub equals_sign : ℕ
equals_sign = 61

-- The memory, and `dst` behind the entry
unfoldable pub copy_entry : Memory → (dst : ℕ) → EnvpPair → Memory × ℕ
copy_entry mem dst p =
    let key_end = dst + length p.key in
    let val_end = key_end + 1 + length p.val in
    let mem₁ = store (put_bytes mem dst p.key) key_end equals_sign in
    (store (put_bytes mem₁ (key_end + 1) p.val) val_end 0, val_end + 1)

-- The rounds of the loop of `ApplyRelative`, with the slot of the table and the end of the strings
unfoldable pub apply_entries : Memory → (slot strings_start : ℕ) → Envp → Memory
apply_entries mem slot strings_start [] = put_bytes mem slot (word_bytes 0)
apply_entries mem slot strings_start (p ∷ ps) =
    let (mem₁, next) = copy_entry (put_bytes mem slot (word_bytes strings_start)) strings_start p in
    apply_entries mem₁ (slot + 4) next ps

unfoldable pub apply_relative : Memory → (dst : ℕ) → Envp → Memory
apply_relative mem dst envp = apply_entries mem dst (dst + 4 * (length envp + 1)) envp

unfoldable pub strings_size : Envp → ℕ
strings_size [] = 0
strings_size (p ∷ ps) = length p.key + 1 + length p.val + 1 + strings_size ps

-- The bytes that `getPlainEnvp` allocates
unfoldable pub plain_size : Envp → ℕ
plain_size envp = (length envp + 1) * 4 + strings_size envp

-- The calls of `malloc` one after the other, two for each string
unfoldable pub pack :
    (mallocs : ℕ → ℕ → Option (List ℕ)) → Envp → ResizableBuffer → Outcome ResizableBuffer
pack mallocs [] buffer = ok buffer
pack mallocs (p ∷ ps) buffer = do
  b₁ ← write_len_and_data (mallocs 0) (mallocs 1) buffer p.key (length p.key)
  b₂ ← write_len_and_data (mallocs 2) (mallocs 3) b₁ p.val (length p.val)
  pack (λ k. mallocs (4 + k)) ps b₂

-- A length, and a string of that length made of what is at the front of the buffer
unfoldable pub unpack_string : ResizableBuffer → Outcome (ResizableBuffer × List ℕ)
unpack_string buffer = do
  (b₁, n) ← read_len buffer
  assert (leb n (capacity b₁))
  b₂ ← skip b₁ n
  ok (b₂, take n b₁.content)

unfoldable pub unpack : ℕ → ResizableBuffer → Envp → Outcome (ResizableBuffer × Envp)
unpack zero buffer envp = abort
unpack (suc fuel) buffer envp = elim (empty buffer) [
  | true ↦ ok (buffer, envp)
  | false ↦ do
    (b₁, key) ← unpack_string buffer
    (b₂, val) ← unpack_string b₁
    unpack fuel b₂ (set_val envp key val)
]

abbrev pub one_further : Option ℕ → Option ℕ
one_further none = none
one_further (some i) = some (i + 1)

-- `std::string::find` of a character
unfoldable pub find_char : List ℕ → ℕ → Option ℕ
find_char [] c = none
find_char (x ∷ xs) c = if x == c then some 0 else one_further (find_char xs c)

-- The key and the value of an entry, if it has both
unfoldable pub split_entry : List ℕ → Option EnvpPair
split_entry entry = elim (find_char entry equals_sign) [
  | none ↦ none
  | some sep ↦
      if sep == 0 then none else some (record { key = take sep entry; val = drop (sep + 1) entry })
]

-- The loop does not advance past an entry that it warns about.
unfoldable pub unpack_envp : ℕ → List (List ℕ) → Envp → Outcome Envp
unpack_envp zero envp envp_vec = abort
unpack_envp (suc fuel) [] envp_vec = ok envp_vec
unpack_envp (suc fuel) (entry ∷ rest) envp_vec = elim (split_entry entry) [
  | none ↦ unpack_envp fuel (entry ∷ rest) envp_vec
  | some p ↦ unpack_envp fuel rest (set_val envp_vec p.key p.val)
]

pub record Process : Type 0 where
  pub envp : Envp
  pub memory : Memory
  pub environ : ℕ
  pub plain_env : ℕ
  pub errno : ℕ

abbrev pub einval : ℕ
einval = 22

-- `new` is `malloc`, and the table that `GetPlainEnv` has had goes with `plain_env`, when there is one.
unfoldable pub update_environ : Allocator → Process → Process
update_environ heap p =
    let (mem₁, address) = heap.malloc p.memory (plain_size p.envp) in
    let mem₂ = apply_relative mem₁ address p.envp in
    record p {
      memory = if p.plain_env == 0 then mem₂ else heap.free mem₂ p.plain_env;
      environ = address;
      plain_env = address;
    }

unfoldable pub getenv : Process → (name : List ℕ) → Option (List ℕ)
getenv p name = get_val p.envp name

abbrev pub is_empty : List ℕ → Bool
is_empty [] = true
is_empty (x ∷ xs) = false

-- `*envname`, and no equals sign in it
unfoldable pub name_is_valid : List ℕ → Bool
name_is_valid name = not (is_empty name) && not (is_some (find_char name equals_sign))

-- The result is the value that is returned; a null name is `none`.
unfoldable pub set_checked :
    Allocator → Process → (name val : List ℕ) → (overwrite : ℕ) → Process × ℤ
set_checked heap p name val overwrite =
    if is_some (get_val p.envp name) && overwrite == 0
    then (p, pos 0)
    else (update_environ heap (record p { envp = set_val p.envp name val }), pos 0)

abbrev pub refuse : Process → Process × ℤ
refuse p = (record p { errno = einval }, negsuc 0)

unfoldable pub setenv :
    Allocator → Process → Option (List ℕ) → List ℕ → (overwrite : ℕ) → Process × ℤ
setenv heap p none envval overwrite = refuse p
setenv heap p (some name) envval overwrite =
    if name_is_valid name then set_checked heap p name envval overwrite else refuse p
