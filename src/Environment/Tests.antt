-- ===== src/Environment/Tests.antt =====
-- The environment at concrete inputs.
use yet_another_project_i_ll.Base.{
  ℕ, ◌-◌, ◌≡◌, refl, Bool, ◌||◌, Option, none, some, List, [], ◌∷◌, arith, leb, ◌==◌, if◌then◌else◌,
  le→leb, replicate, length-replicate, abort, ◌>>=◌, Returns, word_bytes,
}
use yet_another_project_i_ll.Environment.{
  Envp, same_chars, string_eq, get_val, set_val, pack, unpack, find_char, split_entry, unpack_envp,
  Process, setenv,
}
use yet_another_project_i_ll.Environment.Values.{Updated, get_val-set_val, SetOutcome, setenv_lem}
use yet_another_project_i_ll.Environment.Packed.{GrantsUpTo, unpack-pack}
use yet_another_project_i_ll.Environment.Loading.{
  texts, AreNamed, HoldsLast, unpack_envp_lem, unpack_envp-never_returns,
}
use yet_another_project_i_ll.ResizableBuffer.{ResizableBuffer}
use yet_another_project_i_ll.ResizableBuffer.Stream.{HasBytes}
use yet_another_project_i_ll.String.{store, Allocator}

-- the string `A=BC`, and its parts
abbrev a_is_bc : List ℕ
a_is_bc = 65 ∷ 61 ∷ 66 ∷ 67 ∷ []

abbrev one : Envp
one = record { key = 65 ∷ []; val = 66 ∷ 67 ∷ [] } ∷ []

abbrev two : Envp
two = record { key = 65 ∷ []; val = 66 ∷ 67 ∷ [] } ∷ record { key = 68 ∷ []; val = [] } ∷ []

-- An allocator that has no more than a thousand bytes
abbrev a_thousand : ℕ → ℕ → Option (List ℕ)
a_thousand k n = if leb n 1000 then some (replicate n 0) else none

a_thousand-GrantsUpTo : GrantsUpTo a_thousand 1000
a_thousand-GrantsUpTo k n positive room =
    (replicate n 0, (rw (le→leb n 1000 room) refl), length-replicate n 0)

abbrev fresh : ResizableBuffer
fresh = record { size = 0; content = replicate 8 0 }

splits : split_entry a_is_bc ≡ some (record { key = 65 ∷ []; val = 66 ∷ 67 ∷ [] })
unfolding split_entry find_char
splits = refl

abbrev started : Process
started = record { envp = two; memory = λ a. 0; environ = 0; plain_env = 0x800; errno = 0 }

-- An allocator with a header of a byte in front of each block
abbrev a_heap : Allocator
a_heap = record { malloc = λ m n. (store m 0xfff n, 0x1000); free = λ m a. store m (a - 1) 0 }

abbrev headers : ℕ → Bool
headers a = a == 0xfff || a == 0x7ff

get_val-set_val_example : Updated two (65 ∷ []) (70 ∷ []) (set_val two (65 ∷ []) (70 ∷ []))
get_val-set_val_example = get_val-set_val two (65 ∷ []) (70 ∷ [])

setenv_lem_example :
    SetOutcome started
      (some (69 ∷ []))
      (70 ∷ [])
      0
      (setenv a_heap started (some (69 ∷ [])) (70 ∷ []) 0)
setenv_lem_example = setenv_lem a_heap started (some (69 ∷ [])) (70 ∷ []) 0

unpack-pack_example :
    Returns
      (λ out. HasBytes [] (out.0) × (out.1 ≡ two))
      (pack a_thousand two fresh >>= λ packed. unpack 3 packed [])
unpack-pack_example =
    unpack-pack a_thousand 1000 two fresh 3 a_thousand-GrantsUpTo (omega arith)
      (record { fits = omega arith; holds = refl })
      (unfold get_val string_eq same_chars in (refl, (refl, tt))) (unfold word_bytes in omega arith)
      (omega arith)

named : AreNamed one
named = (((λ e. absurd (cc e)), ((λ e. absurd (omega arith)), tt)), tt)

unpack_envp_lem_example : Returns (HoldsLast two one) (unpack_envp 2 (texts one) two)
unpack_envp_lem_example = unpack_envp_lem one two 2 named (omega arith)

no_sign : split_entry (65 ∷ []) ≡ none
unfolding split_entry find_char
no_sign = refl

unpack_envp-never_returns_example : unpack_envp 1000 (a_is_bc ∷ (65 ∷ []) ∷ []) [] ≡ abort
unpack_envp-never_returns_example =
    unpack_envp-never_returns (a_is_bc ∷ []) one (65 ∷ []) [] [] 1000 (splits, tt) no_sign
