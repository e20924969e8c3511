-- ===== src/Printf/Template.antt =====
-- `Format` of libc/printf.cpp against formats that are put together of pieces, each with its argument.
use yet_another_project_i_ll.Base.{
  ℕ, ◌%◌, ◌^◌, ◌<◌, ◌≡◌, refl, sym, subst, ◌≢◌, false, List, [], ◌∷◌, ◌++◌, arith, ◌==◌, pos,
  negsuc, Outcome, ok, abort, ◌>>=◌, Returns, Returns-value,
}
use yet_another_project_i_ll.Printf.Digits.{
  Prints, print_decimal-Prints, int_value, int32, IsInteger, print_int-value,
}
use yet_another_project_i_ll.Printf.{
  print_decimal, print_int, print_hex_32, print_hex_64, Arg, word, wide, text, spec_of,
  long_long_of, Formatted, emit, plain, format,
}

pub data Piece : Type 0 where
  literal char_of int_of unsigned_of pointer_of hex_of long_hex_of wide_hex_of : ℕ → Piece
  string_of : List ℕ → Piece

-- How a piece is written in a format, its arguments, and its text
abbrev pub written : Piece → List ℕ
written (literal c) = c ∷ []
written (char_of w) = 37 ∷ 99 ∷ []
written (int_of w) = 37 ∷ 100 ∷ []
written (unsigned_of w) = 37 ∷ 117 ∷ []
written (pointer_of w) = 37 ∷ 112 ∷ []
written (hex_of w) = 37 ∷ 120 ∷ []
written (long_hex_of w) = 37 ∷ 108 ∷ 120 ∷ []
written (wide_hex_of w) = 37 ∷ 108 ∷ 108 ∷ 120 ∷ []
written (string_of s) = 37 ∷ 115 ∷ []

abbrev pub arguments : Piece → List Arg
arguments (literal c) = []
arguments (wide_hex_of w) = wide w ∷ []
arguments (string_of s) = text s ∷ []
arguments (char_of w) = word w ∷ []
arguments (int_of w) = word w ∷ []
arguments (unsigned_of w) = word w ∷ []
arguments (pointer_of w) = word w ∷ []
arguments (hex_of w) = word w ∷ []
arguments (long_hex_of w) = word w ∷ []

abbrev pub piece_text : Piece → Outcome (List ℕ)
piece_text (literal c) = ok (c ∷ [])
piece_text (char_of w) = ok (w % 256 ∷ [])
piece_text (int_of w) = print_int w
piece_text (unsigned_of w) = print_decimal w
piece_text (pointer_of w) = ok (48 ∷ 120 ∷ print_hex_32 w)
piece_text (hex_of w) = ok (print_hex_32 w)
piece_text (long_hex_of w) = ok (print_hex_32 w)
piece_text (wide_hex_of w) = ok (print_hex_64 w)
piece_text (string_of s) = ok s

abbrev pub format_of : List Piece → List ℕ
format_of [] = []
format_of (p ∷ ps) = written p ++ format_of ps

abbrev pub arguments_of : List Piece → List Arg
arguments_of [] = []
arguments_of (p ∷ ps) = arguments p ++ arguments_of ps

abbrev pub then_text : Outcome (List ℕ) → Outcome (List ℕ) → Outcome (List ℕ)
then_text t rest = t >>= λ a. rest >>= λ b. ok (a ++ b)

abbrev pub text_of : List Piece → Outcome (List ℕ)
text_of [] = ok []
text_of (p ∷ ps) = then_text (piece_text p) (text_of ps)

-- A literal is no percent sign, and a number to be put in decimal is a 32-bit word.
abbrev pub IsPiece : Piece → Type 0
IsPiece (literal c) = (c == 37) ≡ false
IsPiece (int_of w) = w < 2 ^ 32
IsPiece (unsigned_of w) = w < 2 ^ 32
IsPiece (char_of w) = Unit {0}
IsPiece (pointer_of w) = Unit {0}
IsPiece (hex_of w) = Unit {0}
IsPiece (long_hex_of w) = Unit {0}
IsPiece (wide_hex_of w) = Unit {0}
IsPiece (string_of s) = Unit {0}

abbrev pub ArePieces : List Piece → Type 0
ArePieces [] = Unit {0}
ArePieces (p ∷ ps) = IsPiece p × ArePieces ps

-- A run that puts the given text, and returns 0
abbrev pub Puts : Outcome (List ℕ) → Formatted → Type 0
Puts expected = Returns (λ out. (expected ≡ ok (out.0)) × (out.1 ≡ pos 0))

emit_step :
    (t rest : Outcome (List ℕ)) (chars : List ℕ) (f : Formatted)
    → t ≡ ok chars
    → Puts rest f
    → Puts (then_text t rest) (emit chars f)
emit_step t rest chars (ok (after, result)) e (r, z) = (rw (e, r) refl, z)
emit_step t rest chars abort e h = absurd h

-- `Format` of a format put together of pieces, with their arguments, puts their texts one after the
-- other and returns 0, whatever their number and order.
pub format-text_of :
    (ps : List Piece)
    → ArePieces ps
    → Puts (text_of ps) (format plain (format_of ps) (arguments_of ps))
unfolding format spec_of long_long_of
format-text_of [] h = (refl, refl)
format-text_of (literal c ∷ ps) (ne, h) =
    rw (format, ne) (emit_step (ok (c ∷ [])) (text_of ps) (c ∷ []) _ refl (format-text_of ps h))
format-text_of (char_of w ∷ ps) (i, h) =
    emit_step (ok (w % 256 ∷ [])) (text_of ps) (w % 256 ∷ []) _ refl (format-text_of ps h)
format-text_of (int_of w ∷ ps) (i, h) =
    let (chars, e, v) =
      Returns-value (λ out. IsInteger out × (int_value out ≡ int32 w)) (print_int w)
        (print_int-value w i) in
    subst
      (λ o.
        Puts (then_text (print_int w) (text_of ps))
          (o >>= λ a. emit a (format plain (format_of ps) (arguments_of ps))))
      (sym e) (emit_step (print_int w) (text_of ps) chars _ e (format-text_of ps h))
format-text_of (unsigned_of w ∷ ps) (i, h) =
    let (chars, e, v) =
      Returns-value (Prints w 10 []) (print_decimal w) (print_decimal-Prints w i) in
    subst
      (λ o.
        Puts (then_text (print_decimal w) (text_of ps))
          (o >>= λ a. emit a (format plain (format_of ps) (arguments_of ps))))
      (sym e) (emit_step (print_decimal w) (text_of ps) chars _ e (format-text_of ps h))
format-text_of (pointer_of w ∷ ps) (i, h) =
    emit_step (ok (48 ∷ 120 ∷ print_hex_32 w)) (text_of ps) (48 ∷ 120 ∷ print_hex_32 w) _ refl
      (format-text_of ps h)
format-text_of (hex_of w ∷ ps) (i, h) =
    emit_step (ok (print_hex_32 w)) (text_of ps) (print_hex_32 w) _ refl (format-text_of ps h)
format-text_of (long_hex_of w ∷ ps) (i, h) =
    emit_step (ok (print_hex_32 w)) (text_of ps) (print_hex_32 w) _ refl (format-text_of ps h)
format-text_of (wide_hex_of w ∷ ps) (i, h) =
    emit_step (ok (print_hex_64 w)) (text_of ps) (print_hex_64 w) _ refl (format-text_of ps h)
format-text_of (string_of s ∷ ps) (i, h) =
    emit_step (ok s) (text_of ps) s _ refl (format-text_of ps h)

-- A `long` in decimal is only put when the format ends behind `%l`. In front of anything that is
-- neither `l` nor `x`, the `d` of `%ld` among them, `Format` puts nothing and returns -1.
pub format-long_stops :
    (c : ℕ) (fmt : List ℕ) (args : List Arg)
    → c ≢ 108
    → c ≢ 120
    → format plain (37 ∷ 108 ∷ c ∷ fmt) args ≡ ok ([], negsuc 0)
unfolding format spec_of
format-long_stops c fmt args l x = ground (arith, l, x)
