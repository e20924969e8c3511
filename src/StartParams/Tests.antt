-- ===== src/StartParams/Tests.antt =====
-- Two parameters that are packed at 0x10000 and mapped at 0x800000.
use yet_another_project_i_ll.Base.{
  ℕ, ◌+◌, ◌-◌, ◌<◌, ◌≡◌, refl, List, [], ◌∷◌, arith, ◌>>=◌, Returns,
}
use yet_another_project_i_ll.StartParams.Moved.{Handed, unpack_params-pack_params}
use yet_another_project_i_ll.StartParams.{pack_params, params_size, pack_size, unpack_params}
use yet_another_project_i_ll.String.Blocks.{Agree}
use yet_another_project_i_ll.String.{Memory}

abbrev two : List (List ℕ)
two = (108 ∷ 115 ∷ []) ∷ (47 ∷ []) ∷ []

abbrev nothing : Memory
nothing a = 0

-- The page at the new address shows what stands at the old one.
abbrev mapped : Memory → Memory
mapped mem a = mem (a - 0x7f_0000)

same_page : (m : Memory) → Agree m 0x1_0000 (mapped m) 0x80_0000 0x40_0000
same_page m i h = let e : 0x80_0000 + i - 0x7f_0000 ≡ 0x1_0000 + i = omega arith in rw e refl

small : pack_size two < 0x40_0000
unfolding pack_size params_size
small = omega arith

unpack_params-pack_params_example :
    Returns
      (Handed 0x80_0000 two)
      (pack_params nothing 0x1_0000 0x40_0000 two >>= λ q. unpack_params (mapped q) 0x80_0000)
unpack_params-pack_params_example =
    unpack_params-pack_params two 0x1_0000 0x80_0000 0x40_0000 (omega arith) (omega arith) small
      (omega arith) (omega arith) mapped same_page nothing
