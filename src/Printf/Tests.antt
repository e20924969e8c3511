-- ===== src/Printf/Tests.antt =====
-- libc/printf.cpp at concrete inputs.
use yet_another_project_i_ll.Base.{◌≡◌, refl, List, [], ◌∷◌, arith, pos, negsuc, ok, Returns}
use yet_another_project_i_ll.Printf.Digits.{
  Prints, print_decimal-Prints, int_value, int32, IsInteger, print_int-value,
}
use yet_another_project_i_ll.Printf.Template.{
  Piece, literal, int_of, string_of, format_of, arguments_of, text_of, Puts, format-text_of,
  format-long_stops,
}
use yet_another_project_i_ll.Printf.{
  fill_digits, print_decimal_impl, print_decimal, print_int, word, spec_of, plain, format, printf,
}

print_decimal-Prints_example : Returns (Prints 4294967295 10 []) (print_decimal 4294967295)
print_decimal-Prints_example = print_decimal-Prints 4294967295 (omega arith)

print_int-value_example :
    Returns (λ out. IsInteger out × (int_value out ≡ int32 0x8000_0000)) (print_int 0x8000_0000)
print_int-value_example = print_int-value 0x8000_0000 (omega arith)

-- `a%d%s`
abbrev pieces : List Piece
pieces = literal 97 ∷ int_of 0xffff_ffff ∷ string_of (98 ∷ []) ∷ []

format-text_of_example :
    Puts (text_of pieces) (format plain (format_of pieces) (arguments_of pieces))
format-text_of_example = format-text_of pieces (refl, (omega arith, (tt, tt)))

format-long_stops_example :
    format plain (37 ∷ 108 ∷ 100 ∷ 33 ∷ []) (word 5 ∷ []) ≡ ok ([], negsuc 0)
format-long_stops_example =
    format-long_stops 100 (33 ∷ []) (word 5 ∷ []) (λ e. absurd (omega arith))
      (λ e. absurd (omega arith))

putting : printf (97 ∷ 37 ∷ 100 ∷ []) (word 0xffff_ffff ∷ []) ≡ ok (97 ∷ 45 ∷ 49 ∷ [], pos 0)
unfolding printf format spec_of print_int print_decimal print_decimal_impl fill_digits
putting = refl
