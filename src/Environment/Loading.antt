-- ===== src/Environment/Loading.antt =====
-- `UnpackEnvp` of libc/globalstate.cpp on the strings that the environment starts with.
use yet_another_project_i_ll.Base.{
  ℕ, zero, suc, ◌+◌, ◌<◌, ◌≡◌, refl, sym, ap, subst, ◌∙◌, ◌≢◌, ◌⊎◌, inl, inr, true, false, none,
  some, List, [], ◌∷◌, ◌++◌, arith, if◌then◌else◌, ==_ne, Bool-cases, length, take, drop,
  take-append, ok, abort, Returns,
}
use yet_another_project_i_ll.Environment.{
  EnvpPair, Envp, string_eq, get_val, set_val, equals_sign, find_char, split_entry, unpack_envp,
}
use yet_another_project_i_ll.Environment.Values.{
  string_eq_sound, string_eq_refl, get_val-set_val, HasNoSign, IsName,
}
use yet_another_project_i_ll.Environment.Packed.{load}

-- The strings split into keys and values, each of which has both
abbrev pub SplitInto : List (List ℕ) → Envp → Type 0
SplitInto [] [] = Unit {0}
SplitInto [] (p ∷ ps) = ⊥
SplitInto (entry ∷ entries) [] = ⊥
SplitInto (entry ∷ entries) (p ∷ ps) = (split_entry entry ≡ some p) × SplitInto entries ps

unpack_envp-load :
    (entries : List (List ℕ)) (ps envp : Envp) (fuel : ℕ)
    → SplitInto entries ps
    → length entries < fuel
    → unpack_envp fuel entries envp ≡ ok (load envp ps)
unfolding unpack_envp
unpack_envp-load entries ps envp zero split enough = absurd (omega arith)
unpack_envp-load [] [] envp (suc fuel) split enough = refl
unpack_envp-load [] (p ∷ ps) envp (suc fuel) split enough = absurd split
unpack_envp-load (entry ∷ entries) [] envp (suc fuel) split enough = absurd split
unpack_envp-load (entry ∷ entries) (p ∷ ps) envp (suc fuel) (e, split) enough =
    rw (unpack_envp, e)
      (unpack_envp-load entries ps (set_val envp p.key p.val) fuel split (omega arith))

-- The strings `KEY=VAL` of variables, in order
abbrev pub texts : Envp → List (List ℕ)
texts [] = []
texts (p ∷ ps) = (p.key ++ (61 ∷ p.val)) ∷ texts ps

abbrev pub AreNamed : Envp → Type 0
AreNamed [] = Unit {0}
AreNamed (p ∷ ps) = IsName p.key × AreNamed ps

find_sign :
    (key val : List ℕ)
    → HasNoSign key
    → find_char (key ++ (61 ∷ val)) equals_sign ≡ some (length key)
unfolding find_char
find_sign [] val h = refl
find_sign (c ∷ cs) val (ne, h) =
    let next : length cs + 1 ≡ suc (length cs) = omega arith in
    rw (find_char, ==_ne c 61 ne, find_sign cs val h, next) refl

length_zero : (xs : List ℕ) → length xs ≡ 0 → xs ≡ []
length_zero [] h = refl
length_zero (x ∷ xs) h = absurd (omega arith)

drop_past : (key val : List ℕ) → drop (length key + 1) (key ++ (61 ∷ val)) ≡ val
drop_past [] val = refl
drop_past (c ∷ cs) val =
    let next : suc (length cs) + 1 ≡ suc (length cs + 1) = omega arith in rw next (drop_past cs val)

-- `KEY=VAL` is split at its first equals sign.
split_entry-text : (p : EnvpPair) → IsName p.key → split_entry (p.key ++ (61 ∷ p.val)) ≡ some p
unfolding split_entry
split_entry-text p (ne, h) =
    let some_key : length p.key ≢ 0 = λ z. ne (length_zero p.key z) in
    let at_key : take (length p.key) (p.key ++ (61 ∷ p.val)) ≡ p.key =
      take-append p.key (61 ∷ p.val) in
    let behind : drop (length p.key + 1) (p.key ++ (61 ∷ p.val)) ≡ p.val = drop_past p.key p.val in
    rw (split_entry, find_sign p.key p.val h, ==_ne (length p.key) 0 some_key, at_key, behind) refl

length-texts : (ps : Envp) → length (texts ps) ≡ length ps
length-texts [] = refl
length-texts (p ∷ ps) = ap suc (length-texts ps)

texts-SplitInto : (ps : Envp) → AreNamed ps → SplitInto (texts ps) ps
texts-SplitInto [] named = tt
texts-SplitInto (p ∷ ps) (name, named) = (split_entry-text p name, texts-SplitInto ps named)

-- No variable of the list is called `key`.
abbrev pub IsAbsent : (key : List ℕ) → Envp → Type 0
IsAbsent key [] = Unit {0}
IsAbsent key (p ∷ ps) = (p.key ≢ key) × IsAbsent key ps

-- What is found under a key is the value that it has last, and what was found before when it has none.
abbrev pub HoldsLast : (before : Envp) → Envp → Envp → Type 0
HoldsLast before ps after =
    ((key : List ℕ) → IsAbsent key ps → get_val after key ≡ get_val before key)
    × ((earlier : Envp) (p : EnvpPair) (later : Envp)
        → ps ≡ earlier ++ (p ∷ later)
        → IsAbsent p.key later
        → get_val after p.key ≡ some p.val)

load-absent :
    (key : List ℕ) (ps envp : Envp)
    → IsAbsent key ps
    → get_val (load envp ps) key ≡ get_val envp key
load-absent key [] envp absent = refl
load-absent key (p ∷ ps) envp (ne, absent) =
    load-absent key ps (set_val envp p.key p.val) absent
    ∙ get_val-set_val envp p.key p.val key
    ∙ other (Bool-cases (string_eq p.key key))
  where
    other :
        (string_eq p.key key ≡ true) ⊎ (string_eq p.key key ≡ false)
        → (if string_eq p.key key then some p.val else get_val envp key) ≡ get_val envp key
    other (inl same) = absurd (ne (string_eq_sound p.key key same))
    other (inr differ) = rw differ

load-last :
    (earlier : Envp) (p : EnvpPair) (later envp : Envp)
    → IsAbsent p.key later
    → get_val (load envp (earlier ++ (p ∷ later))) p.key ≡ some p.val
load-last [] p later envp absent =
    load-absent p.key later (set_val envp p.key p.val) absent
    ∙ get_val-set_val envp p.key p.val p.key
    ∙ (rw (string_eq_refl p.key) refl)
load-last (q ∷ earlier) p later envp absent =
    load-last earlier p later (set_val envp q.key q.val) absent

-- When every string is a name, an equals sign and a value, `UnpackEnvp` returns, and `getVal` finds
-- under each name the value of the last string with it, under any other key what it found before.
-- A name is not empty and has no equals sign. One round more than there are strings is fuel enough.
pub unpack_envp_lem :
    (ps envp : Envp) (fuel : ℕ)
    → AreNamed ps
    → length ps < fuel
    → Returns (HoldsLast envp ps) (unpack_envp fuel (texts ps) envp)
unpack_envp_lem ps envp fuel named enough =
    rw
      (unpack_envp-load (texts ps) ps envp fuel (texts-SplitInto ps named)
        (omega (arith, length-texts ps)))
      (
        λ key absent. load-absent key ps envp absent,
        λ earlier p later e absent.
            subst (λ l. get_val (load envp l) p.key ≡ some p.val) (sym e)
              (load-last earlier p later envp absent),
      )

stuck :
    (entry : List ℕ) (rest : List (List ℕ)) (envp : Envp) (fuel : ℕ)
    → split_entry entry ≡ none
    → unpack_envp fuel (entry ∷ rest) envp ≡ abort
unfolding unpack_envp
stuck entry rest envp zero bad = refl
stuck entry rest envp (suc fuel) bad = rw (unpack_envp, bad) (stuck entry rest envp fuel bad)

-- Once `UnpackEnvp` meets a string that is not of the form `KEY=VAL`, behind any number of good ones,
-- it never returns: no amount of fuel is enough.
pub unpack_envp-never_returns :
    (entries : List (List ℕ)) (ps : Envp) (bad : List ℕ) (rest : List (List ℕ)) (envp : Envp)
    (fuel : ℕ)
    → SplitInto entries ps
    → split_entry bad ≡ none
    → unpack_envp fuel (entries ++ (bad ∷ rest)) envp ≡ abort
unfolding unpack_envp
unpack_envp-never_returns [] [] bad rest envp fuel split e = stuck bad rest envp fuel e
unpack_envp-never_returns [] (p ∷ ps) bad rest envp fuel split e = absurd split
unpack_envp-never_returns (entry ∷ entries) [] bad rest envp fuel split e = absurd split
unpack_envp-never_returns (entry ∷ entries) (p ∷ ps) bad rest envp zero split e = refl
unpack_envp-never_returns (entry ∷ entries) (p ∷ ps) bad rest envp (suc fuel) (h, split) e =
    rw (unpack_envp, h)
      (unpack_envp-never_returns entries ps bad rest (set_val envp p.key p.val) fuel split e)
