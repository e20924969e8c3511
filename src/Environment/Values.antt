-- ===== src/Environment/Values.antt =====
-- `getVal`, `setVal` and `setenv`: the environment as a map from names to values.
use yet_another_project_i_ll.Base.{
  ℕ, ◌≡◌, refl, sym, ap₂, subst, ◌∙◌, ◌≢◌, ◌↔◌, inl, inr, true, not, ◌&&◌, Option, none, some, List,
  [], ◌∷◌, arith, ◌==◌, if◌then◌else◌, ==_refl, ==_ne, Bool-cases, Option-cases, ==_yes, length, ℤ,
  pos, is_some,
}
use yet_another_project_i_ll.Environment.{
  Envp, same_chars, string_eq, get_val, assign, add, set_val, equals_sign, find_char, Process,
  update_environ, getenv, name_is_valid, set_checked, refuse, setenv,
}
use yet_another_project_i_ll.String.{Allocator}
use native.Mathlib.Decide.{ℕ_discrete}

same_chars_iff : (xs ys : List ℕ) → (same_chars xs ys ≡ true) ↔ (xs ≡ ys)
unfolding same_chars
same_chars_iff [] [] = (λ h. refl, λ h. refl)
same_chars_iff [] (y ∷ ys) = (λ h. absurd (cc h), λ h. absurd (cc h))
same_chars_iff (x ∷ xs) [] = (λ h. absurd (cc h), λ h. absurd (cc h))
same_chars_iff (x ∷ xs) (y ∷ ys) = elim (Bool-cases (x == y)) [
  | inl e ↦ (
    λ h. ap₂ (λ (a : ℕ) (l : List ℕ). a ∷ l) (ground arith) ((same_chars_iff xs ys).0 (rw e at h)),
    λ h. rw e ((same_chars_iff xs ys).1 (cc h)),
  )
  | inr ne ↦ (λ h. absurd (cc (rw ne at h)), λ h. absurd (cc (ne, ==_yes x y (cc h))))
]

pub string_eq_sound : (xs ys : List ℕ) → string_eq xs ys ≡ true → xs ≡ ys
unfolding string_eq
string_eq_sound xs ys h = elim (Bool-cases (length xs == length ys)) [
  | inl e ↦ (same_chars_iff xs ys).0 (rw e at h)
  | inr ne ↦ absurd (cc (rw ne at h))
]

pub string_eq_refl : (xs : List ℕ) → string_eq xs xs ≡ true
unfolding string_eq
string_eq_refl xs = rw (==_refl (length xs)) ((same_chars_iff xs xs).1 refl)

-- What is found after the value of `key` has become `val`
abbrev pub Updated : Envp → (key val : List ℕ) → Envp → Type 0
Updated envp key val after =
    (other : List ℕ)
    → get_val after other ≡ (if string_eq key other then some val else get_val envp other)

add-Updated :
    (envp : Envp) (key val : List ℕ)
    → get_val envp key ≡ none
    → Updated envp key val (add envp key val)
unfolding get_val
add-Updated [] key val e other = refl
add-Updated (p ∷ ps) key val e other = elim (Bool-cases (string_eq p.key key)) [
  | inl here ↦ absurd (cc (rw here at e))
  | inr there ↦ elim (Bool-cases (string_eq p.key other)) [
    | inl hit ↦ elim (Bool-cases (string_eq key other)) [
      | inl same ↦
          let eq : p.key ≡ key =
            string_eq_sound p.key other hit ∙ sym (string_eq_sound key other same) in
          absurd (cc (there, subst (λ k. string_eq p.key k ≡ true) eq (string_eq_refl p.key)))
      | inr differ ↦ rw (hit, differ) refl
    ]
    | inr miss ↦ rw miss (add-Updated ps key val (rw there at e) other)
  ]
]

assign-Updated :
    (envp : Envp) (key val found : List ℕ)
    → get_val envp key ≡ some found
    → Updated envp key val (assign envp key val)
unfolding get_val assign
assign-Updated [] key val found e other = absurd (cc e)
assign-Updated (p ∷ ps) key val found e other = elim (Bool-cases (string_eq p.key key)) [
  | inl here ↦
      let eq : p.key ≡ key = string_eq_sound p.key key here in
      elim (Bool-cases (string_eq key other)) [
        | inl same ↦ rw (here, eq, same) refl
        | inr differ ↦ rw (here, eq, differ) refl
      ]
  | inr there ↦ elim (Bool-cases (string_eq p.key other)) [
    | inl hit ↦ elim (Bool-cases (string_eq key other)) [
      | inl same ↦
          let eq : p.key ≡ key =
            string_eq_sound p.key other hit ∙ sym (string_eq_sound key other same) in
          absurd (cc (there, subst (λ k. string_eq p.key k ≡ true) eq (string_eq_refl p.key)))
      | inr differ ↦ rw (there, hit, differ) refl
    ]
    | inr miss ↦ rw (there, miss) (assign-Updated ps key val found (rw there at e) other)
  ]
]

-- After `setVal` the key has the new value and every other key the value it had.
pub get_val-set_val : (envp : Envp) (key val : List ℕ) → Updated envp key val (set_val envp key val)
unfolding set_val
get_val-set_val envp key val = elim (Option-cases (get_val envp key)) [
  | inl e ↦ rw (set_val, e) (add-Updated envp key val e)
  | inr (found, e) ↦ rw (set_val, e) (assign-Updated envp key val found e)
]

-- No character of a name is an equals sign.
abbrev pub HasNoSign : List ℕ → Type 0
HasNoSign [] = Unit {0}
HasNoSign (c ∷ cs) = (c ≢ 61) × HasNoSign cs

-- What a variable can be called
abbrev pub IsName : List ℕ → Type 0
IsName name = (name ≢ []) × HasNoSign name

pub HasNoSign-find_char : (name : List ℕ) → HasNoSign name → find_char name equals_sign ≡ none
unfolding find_char
HasNoSign-find_char [] h = refl
HasNoSign-find_char (c ∷ cs) (ne, h) = rw (find_char, ==_ne c 61 ne, HasNoSign-find_char cs h) refl

find_char-HasNoSign : (name : List ℕ) → find_char name equals_sign ≡ none → HasNoSign name
unfolding find_char
find_char-HasNoSign [] h = tt
find_char-HasNoSign (c ∷ cs) h = elim (ℕ_discrete c 61) [
  | yes e ↦ absurd (cc (rw (==_yes c 61 e) at h))
  | no ne ↦ elim (Option-cases (find_char cs equals_sign)) [
    | inl z ↦ (ne, find_char-HasNoSign cs z)
    | inr (i, found) ↦ absurd (cc (rw (==_ne c 61 ne, found) at h))
  ]
]

-- The check of `setenv` lets through the names without an equals sign, but for the empty one.
pub name_is_valid_lem : (name : List ℕ) → (name_is_valid name ≡ true) ↔ IsName name
unfolding name_is_valid
name_is_valid_lem [] = (λ h. absurd (cc h), λ (ne, h). absurd (ne refl))
name_is_valid_lem (c ∷ cs) = elim (Option-cases (find_char (c ∷ cs) equals_sign)) [
  | inl z ↦ (λ h. ((λ e. absurd (cc e)), find_char-HasNoSign (c ∷ cs) z), λ h. rw z)
  | inr (i, found) ↦ (
    λ h. absurd (cc (rw found at h)),
    λ (ne, h). absurd (cc (found, HasNoSign-find_char (c ∷ cs) h)),
  )
]

-- What `setenv` leaves and returns
abbrev pub SetOutcome : Process → Option (List ℕ) → List ℕ → (overwrite : ℕ) → Process × ℤ → Type 0
SetOutcome p none val overwrite out = out ≡ refuse p
SetOutcome p (some name) val overwrite out =
    (¬ IsName name → out ≡ refuse p)
    × (IsName name
        → (out.1 ≡ pos 0)
          × ((other : List ℕ)
              → getenv (out.0) other ≡ (
                  if string_eq name other && not (is_some (getenv p name) && overwrite == 0)
                  then some val
                  else getenv p other)))

valid_outcome :
    (heap : Allocator) (p : Process) (name val : List ℕ) (overwrite : ℕ)
    → (((set_checked heap p name val overwrite).1 ≡ pos 0)
        × ((other : List ℕ)
            → getenv ((set_checked heap p name val overwrite).0) other ≡ (
                if string_eq name other && not (is_some (getenv p name) && overwrite == 0)
                then some val
                else getenv p other)))
unfolding set_checked getenv update_environ
valid_outcome heap p name val overwrite =
    elim (Bool-cases (is_some (get_val p.envp name) && overwrite == 0)) [
      | inl keep ↦ rw keep (refl, λ other. ground arith)
      | inr write ↦ rw write (refl, λ other. get_val-set_val p.envp name val other ∙ ground arith)
    ]

-- `setenv` refuses a name that is null, empty or has an equals sign: it returns -1, sets `errno` and
-- changes nothing else. With any other name it returns 0. A variable that exists stays as it is when
-- `overwrite` is 0; else it has the new value afterwards, and no other variable has changed.
pub setenv_lem :
    (heap : Allocator) (p : Process) (envname : Option (List ℕ)) (envval : List ℕ) (overwrite : ℕ)
    → SetOutcome p envname envval overwrite (setenv heap p envname envval overwrite)
unfolding setenv
setenv_lem heap p none val overwrite = refl
setenv_lem heap p (some name) val overwrite = elim (Bool-cases (name_is_valid name)) [
  | inl v ↦ rw v (
    (λ bad. absurd (bad ((name_is_valid_lem name).0 v))),
    λ good. valid_outcome heap p name val overwrite,
  )
  | inr n ↦ rw n ((λ bad. refl), λ good. absurd (cc (n, (name_is_valid_lem name).1 good)))
]
