-- ===== src/Vfs/Clean.antt =====
-- `CleanPath` of libc/vfs.cpp.
use yet_another_project_i_ll.Base.{
  ℕ, ◌≡◌, refl, sym, ap, subst, ◌∙◌, Bool, true, false, List, [], ◌∷◌, ◌++◌, arith, ◌==◌,
  if◌then◌else◌, append_assoc, Outcome, ok, abort, ◌>>=◌,
}
use yet_another_project_i_ll.Vfs.{
  path_sep, isspace, is_path_sep, lstrip_rounds, inplace_lstrip, rstrip_rounds, inplace_rstrip,
  without_dot, is_root, clean_path,
}

abbrev pub All : (ℕ → Bool) → List ℕ → Type 0
All f [] = Unit {0}
All f (c ∷ cs) = (f c ≡ true) × All f cs

lstrip_rounds-All :
    (f : ℕ → Bool) (spaces : List ℕ) (c : ℕ) (rest : List ℕ)
    → All f spaces
    → f c ≡ false
    → lstrip_rounds f (spaces ++ (c ∷ rest)) ≡ ok (c ∷ rest)
unfolding lstrip_rounds
lstrip_rounds-All f [] c rest all keep = rw (lstrip_rounds, keep) refl
lstrip_rounds-All f (x ∷ xs) c rest (strip, all) keep =
    rw (lstrip_rounds, strip) (lstrip_rounds-All f xs c rest all keep)

-- A loop over characters that are all to be stripped runs into the front of the string.
rstrip_to_front : (f : ℕ → Bool) (xs : List ℕ) → All f xs → rstrip_rounds f xs ≡ abort
unfolding rstrip_rounds
rstrip_to_front f [] all = refl
rstrip_to_front f (x ∷ xs) (strip, all) = rw (rstrip_rounds, rstrip_to_front f xs all, strip) refl

rstrip_rounds-All :
    (f : ℕ → Bool) (xs : List ℕ) (z : ℕ) (tail : List ℕ)
    → f z ≡ false
    → All f tail
    → rstrip_rounds f (xs ++ (z ∷ tail)) ≡ ok (xs ++ (z ∷ []))
unfolding rstrip_rounds
rstrip_rounds-All f [] z tail keep all = rw (rstrip_rounds, rstrip_to_front f tail all, keep) refl
rstrip_rounds-All f (x ∷ xs) z tail keep all =
    rw (rstrip_rounds, rstrip_rounds-All f xs z tail keep all) refl

rstrip_rounds-tail :
    (f : ℕ → Bool) (xs tail : List ℕ)
    → All f tail
    → rstrip_rounds f (xs ++ tail) ≡ rstrip_rounds f xs
unfolding rstrip_rounds
rstrip_rounds-tail f [] tail all = rstrip_to_front f tail all
rstrip_rounds-tail f (x ∷ xs) tail all = rw (rstrip_rounds, rstrip_rounds-tail f xs tail all) refl

rstrip_rounds-append :
    (f : ℕ → Bool) (xs ys left : List ℕ)
    → rstrip_rounds f ys ≡ ok left
    → rstrip_rounds f (xs ++ ys) ≡ ok (xs ++ left)
unfolding rstrip_rounds
rstrip_rounds-append f [] ys left e = e
rstrip_rounds-append f (x ∷ xs) ys left e =
    rw (rstrip_rounds, rstrip_rounds-append f xs ys left e) refl

isspace-sep : (c : ℕ) → is_path_sep c ≡ true → isspace c ≡ false
unfolding isspace is_path_sep
isspace-sep c h = let e : c ≡ 47 = ground arith in rw e refl

keeps_seps :
    (z : ℕ) (seps : List ℕ)
    → isspace z ≡ false
    → All is_path_sep seps
    → rstrip_rounds isspace (z ∷ seps) ≡ ok (z ∷ seps)
unfolding rstrip_rounds
keeps_seps z [] keep all = rw (rstrip_rounds, keep) refl
keeps_seps z (s ∷ ss) keep (sep, all) =
    rw (rstrip_rounds, keeps_seps s ss (isspace-sep s sep) all) refl

inplace_rstrip-cons :
    (f : ℕ → Bool) (xs : List ℕ) (z : ℕ) (tail : List ℕ)
    → inplace_rstrip f (xs ++ (z ∷ tail)) ≡ rstrip_rounds f (xs ++ (z ∷ tail))
unfolding inplace_rstrip
inplace_rstrip-cons f [] z tail = refl
inplace_rstrip-cons f (x ∷ xs) z tail = refl

inplace_lstrip-All :
    (f : ℕ → Bool) (spaces : List ℕ) (c : ℕ) (rest : List ℕ)
    → All f spaces
    → f c ≡ false
    → inplace_lstrip f (spaces ++ (c ∷ rest)) ≡ ok (c ∷ rest)
unfolding inplace_lstrip
inplace_lstrip-All f [] c rest all keep = lstrip_rounds-All f [] c rest all keep
inplace_lstrip-All f (x ∷ xs) c rest all keep = lstrip_rounds-All f (x ∷ xs) c rest all keep

not_root :
    (xs : List ℕ) (z : ℕ) (seps : List ℕ)
    → is_path_sep z ≡ false
    → is_root (xs ++ (z ∷ seps)) ≡ false
unfolding is_path_sep
not_root [] z [] n = n
not_root [] z (s ∷ seps) n = refl
not_root (x ∷ []) z seps n = refl
not_root (x ∷ y ∷ xs) z seps n = refl

-- What may stand in front of a name that is kept: nothing, when its first character is no dot and no
-- white space, or `./`.
abbrev pub Leads : (lead name : List ℕ) → Type 0
Leads [] [] = ⊥
Leads [] (c ∷ cs) = (isspace c ≡ false) × ((c == 46) ≡ false)
Leads (a ∷ lead) name = a ∷ lead ≡ 46 ∷ path_sep ∷ []

drops_lead :
    (lead name spaces tail : List ℕ)
    → Leads lead name
    → All isspace spaces
    → (inplace_lstrip isspace (spaces ++ (lead ++ (name ++ tail))) >>= λ left.
        ok (without_dot left))
      ≡ ok (name ++ tail)
unfolding without_dot isspace
drops_lead [] [] spaces tail leads all = absurd leads
drops_lead [] (c ∷ []) spaces [] (keep, dot) all =
    rw (inplace_lstrip-All isspace spaces c [] all keep) refl
drops_lead [] (c ∷ []) spaces (t ∷ tail) (keep, dot) all =
    rw (inplace_lstrip-All isspace spaces c (t ∷ tail) all keep, dot) refl
drops_lead [] (c ∷ d ∷ cs) spaces tail (keep, dot) all =
    rw (inplace_lstrip-All isspace spaces c (d ∷ (cs ++ tail)) all keep, dot) refl
drops_lead (a ∷ lead) name spaces tail leads all =
    subst
      (λ l.
        (inplace_lstrip isspace (spaces ++ (l ++ (name ++ tail))) >>= λ left. ok (without_dot left))
        ≡ ok (name ++ tail))
      (sym leads) (rw (inplace_lstrip-All isspace spaces 46 (47 ∷ (name ++ tail)) all refl) refl)

bind-ok :
    (o : Outcome (List ℕ)) (g : List ℕ → List ℕ) (h : List ℕ → Outcome (List ℕ))
    → (o >>= (λ a. ok (g a)) >>= h) ≡ (o >>= λ a. h (g a))
bind-ok (ok a) g h = refl
bind-ok abort g h = refl

-- `CleanPath` strips white space at both ends, `./` at the front and separators at the end: of a name
-- that ends in a character that is neither white space nor a separator, and that starts with one that
-- is neither white space nor a dot unless `./` stands in front of it, exactly the name is left.
pub clean_path_lem :
    (spaces lead xs : List ℕ) (z : ℕ) (seps tail : List ℕ)
    → All isspace spaces
    → Leads lead (xs ++ (z ∷ []))
    → isspace z ≡ false
    → is_path_sep z ≡ false
    → All is_path_sep seps
    → All isspace tail
    → clean_path (spaces ++ (lead ++ ((xs ++ (z ∷ [])) ++ (seps ++ tail)))) ≡ ok (xs ++ (z ∷ []))
unfolding clean_path
clean_path_lem spaces lead xs z seps tail blanks leads keep no_sep all_seps all_tail =
    let joined : (xs ++ (z ∷ [])) ++ (seps ++ tail) ≡ (xs ++ (z ∷ seps)) ++ tail =
      append_assoc xs (z ∷ []) (seps ++ tail) ∙ sym (append_assoc xs (z ∷ seps) tail) in
    let flat : (xs ++ (z ∷ seps)) ++ tail ≡ xs ++ (z ∷ (seps ++ tail)) =
      append_assoc xs (z ∷ seps) tail in
    let right : inplace_rstrip isspace ((xs ++ (z ∷ [])) ++ (seps ++ tail))
        ≡ ok (xs ++ (z ∷ seps)) =
      ap (inplace_rstrip isspace) (joined ∙ flat)
      ∙ inplace_rstrip-cons isspace xs z (seps ++ tail)
      ∙ ap (rstrip_rounds isspace) (sym flat)
      ∙ rstrip_rounds-tail isspace (xs ++ (z ∷ seps)) tail all_tail
      ∙ rstrip_rounds-append isspace xs (z ∷ seps) (z ∷ seps) (keeps_seps z seps keep all_seps) in
    let last : inplace_rstrip is_path_sep (xs ++ (z ∷ seps)) ≡ ok (xs ++ (z ∷ [])) =
      inplace_rstrip-cons is_path_sep xs z seps
      ∙ rstrip_rounds-All is_path_sep xs z seps no_sep all_seps in
    let rest : List ℕ → Outcome (List ℕ) = λ left.
      (inplace_rstrip isspace left >>= λ right.
      if is_root right then ok right else inplace_rstrip is_path_sep right) in
    sym (
      bind-ok (inplace_lstrip isspace (spaces ++ (lead ++ ((xs ++ (z ∷ [])) ++ (seps ++ tail)))))
        without_dot rest)
    ∙ ap (λ o. o >>= rest) (drops_lead lead (xs ++ (z ∷ [])) spaces (seps ++ tail) leads blanks)
    ∙ rw (right, not_root xs z seps no_sep, last) refl
