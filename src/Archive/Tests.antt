-- ===== src/Archive/Tests.antt =====
-- An archive with one file of three bytes, and the theorems on it.
use yet_another_project_i_ll.Base.{
  ℕ, ◌+◌, ◌-◌, ◌*◌, ◌%◌, ◌^◌, ◌≡◌, refl, true, ◌&&◌, [], ◌∷◌, arith, ltb, leb, ◌==◌, if◌then◌else◌,
  get_or, ok,
}
use yet_another_project_i_ll.Archive.{oct2bin, zero_from, is_zero_page, iterate_ustar}
use yet_another_project_i_ll.Archive.Octal.{oct2bin-octal}
use yet_another_project_i_ll.Archive.Members.{
  content, entries_at, blocks_of, magic, HasHeader, iterate_ustar-Sits,
}

-- the literal at 0, and the archive at 512
abbrev memory : ℕ → ℕ
memory a =
    if ltb a 5
    then get_or magic a 0
    else if leb 636 a && ltb a 646
    then 48
    else if a == 646
    then 51
    else if a == 668
    then 48
    else if leb 769 a && ltb a 774
    then get_or magic (a - 769) 0
    else if leb 1024 a && ltb a 1027
    then 65
    else 0

one-HasHeader : HasHeader true memory 512 (content 3)
one-HasHeader = record {
  magic_bytes = (refl, (refl, (refl, (refl, (refl, tt)))));
  terminator = λ asserts. refl;
  size = (refl, (refl, (refl, (refl, (refl, (refl, (refl, (refl, (refl, (refl, (refl, tt)))))))))));
  kind = ((λ e. absurd (omega arith)), (λ asserts e. absurd (omega arith)), omega arith);
}

zeros : (is_zero_page memory 1536 ≡ true) × (is_zero_page memory (1536 + 512) ≡ true)
unfolding is_zero_page zero_from
zeros = (refl, refl)

iterate_ustar-Sits_example :
    iterate_ustar true 0 memory 2 512
    ≡ ok (entries_at 512 (content 3 ∷ []), 512 * (blocks_of (content 3 ∷ []) + 2))
iterate_ustar-Sits_example =
    iterate_ustar-Sits true 0 memory (refl, (refl, (refl, (refl, (refl, tt))))) refl
      (content 3 ∷ []) 512 2 (one-HasHeader, zeros) (omega arith)

oct2bin-octal_example : oct2bin true memory 636 11 ≡ ok (3 % 2 ^ 32)
oct2bin-octal_example =
    oct2bin-octal true memory 636 11 3 (omega arith)
      (refl, (refl, (refl, (refl, (refl, (refl, (refl, (refl, (refl, (refl, (refl, tt)))))))))))
