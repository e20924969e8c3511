-- ===== src/Environment/Packed.antt =====
-- `Pack` and `Unpack` of libc/include/libc/startup/globalstate.h.
use yet_another_project_i_ll.Base.{
  ℕ, zero, suc, ◌+◌, ◌^◌, ◌≤◌, ◌<◌, ◌≡◌, refl, sym, ap, subst, ◌∙◌, Option, none, List, [], ◌∷◌,
  ◌++◌, arith, le→leb, ==_ne, ==_yes, length, take, length-append, take-append, append_assoc,
  append_nil, ◌>>=◌, Returns, Returns-mono, Returns-bind, take-take, Grants, word_bytes,
}
use yet_another_project_i_ll.Environment.{
  EnvpPair, Envp, get_val, add, set_val, pack, unpack_string, unpack,
}
use yet_another_project_i_ll.ResizableBuffer.{ResizableBuffer, capacity, write_len_and_data}
use yet_another_project_i_ll.ResizableBuffer.Stream.{
  HasBytes, HasBytes-size, write_len_and_data-append, skip-front, read_len-front,
}

-- The bytes of a string with its length, and of an environment
abbrev pub item : List ℕ → List ℕ
item s = word_bytes (length s) ++ s

abbrev pub encode : Envp → List ℕ
encode [] = []
encode (p ∷ ps) = item p.key ++ (item p.val ++ encode ps)

length-word_bytes : (n : ℕ) → length (word_bytes n) ≡ 4
unfolding word_bytes
length-word_bytes n = refl

length-item : (s : List ℕ) → length (item s) ≡ 4 + length s
length-item s = omega (arith, length-append (word_bytes (length s)) s, length-word_bytes (length s))

length-encode :
    (p : EnvpPair) (ps : Envp)
    → length (encode (p ∷ ps)) ≡ 4 + length p.key + (4 + length p.val + length (encode ps))
length-encode p ps = omega (
  arith,
  length-append (item p.key) (item p.val ++ encode ps),
  length-append (item p.val) (encode ps),
  length-item p.key,
  length-item p.val,
)

-- Each call of `malloc` gives a buffer when it is asked for at most `limit` bytes.
abbrev pub GrantsUpTo : (ℕ → ℕ → Option (List ℕ)) → ℕ → Type 0
GrantsUpTo mallocs limit = (k n : ℕ) → 0 < n → n ≤ limit → Grants (mallocs k) n

write_item :
    (mallocs : ℕ → ℕ → Option (List ℕ)) (limit k : ℕ) (bytes s : List ℕ) (b : ResizableBuffer)
    → GrantsUpTo mallocs limit
    → limit < 2 ^ 32
    → HasBytes bytes b
    → length bytes + length (item s) ≤ limit
    → Returns
        (HasBytes (bytes ++ item s))
        (write_len_and_data (mallocs k) (mallocs (1 + k)) b s (length s))
write_item mallocs limit k bytes s b grants small h room =
    let size : length (item s) ≡ 4 + length s = length-item s in
    subst
      (λ l. Returns (HasBytes l) (write_len_and_data (mallocs k) (mallocs (1 + k)) b s (length s)))
      (append_assoc bytes (word_bytes (length s)) s)
      (write_len_and_data-append (mallocs k) (mallocs (1 + k)) bytes s b h (omega arith)
        (grants k (4 + length bytes) (omega arith) (omega arith))
        (grants (1 + k) (length s + (length bytes + 4)) (omega arith) (omega arith)))

-- `Pack` appends the environment's strings, each with its length.
pub pack-encode :
    (mallocs : ℕ → ℕ → Option (List ℕ)) (limit : ℕ) (envp : Envp) (bytes : List ℕ)
    (b : ResizableBuffer)
    → GrantsUpTo mallocs limit
    → limit < 2 ^ 32
    → HasBytes bytes b
    → length bytes + length (encode envp) ≤ limit
    → Returns (HasBytes (bytes ++ encode envp)) (pack mallocs envp b)
unfolding pack
pack-encode mallocs limit [] bytes b grants small h room =
    subst (λ l. HasBytes l b) (sym (append_nil bytes)) h
pack-encode mallocs limit (p ∷ ps) bytes b grants small h room =
    let with_key : List ℕ = bytes ++ item p.key in
    let with_val : List ℕ = with_key ++ item p.val in
    let key_len : length with_key ≡ length bytes + length (item p.key) =
      length-append bytes (item p.key) in
    let val_len : length with_val ≡ length with_key + length (item p.val) =
      length-append with_key (item p.val) in
    let total : length (encode (p ∷ ps))
        ≡ 4 + length p.key + (4 + length p.val + length (encode ps)) =
      length-encode p ps in
    let key_size : length (item p.key) ≡ 4 + length p.key = length-item p.key in
    let val_size : length (item p.val) ≡ 4 + length p.val = length-item p.val in
    let same : with_val ++ encode ps ≡ bytes ++ encode (p ∷ ps) =
      append_assoc with_key (item p.val) (encode ps)
      ∙ append_assoc bytes (item p.key) (item p.val ++ encode ps) in
    Returns-bind (HasBytes with_key) (HasBytes (bytes ++ encode (p ∷ ps))) _ _
      (write_item mallocs limit 0 bytes p.key b grants small h (omega arith))
      (λ b₁ h₁.
        Returns-bind (HasBytes with_val) (HasBytes (bytes ++ encode (p ∷ ps))) _ _
          (write_item mallocs limit 2 with_key p.val b₁ grants small h₁ (omega arith))
          (λ b₂ h₂.
            subst (λ l. Returns (HasBytes l) (pack (λ k. mallocs (4 + k)) ps b₂)) same
              (pack-encode (λ k. mallocs (4 + k)) limit ps with_val b₂ (λ k n. grants (4 + k) n)
                small h₂ (omega arith))))

unpack_item :
    (s rest : List ℕ) (b : ResizableBuffer)
    → length s < 2 ^ 32
    → HasBytes (item s ++ rest) b
    → Returns (λ out. HasBytes rest (out.0) × (out.1 ≡ s)) (unpack_string b)
unfolding unpack_string
unpack_item s rest b small h =
    Returns-bind (λ out. HasBytes (s ++ rest) (out.0) × (out.1 ≡ length s))
      (λ out. HasBytes rest (out.0) × (out.1 ≡ s)) _ _
      (read_len-front (length s) (s ++ rest) b small
        (subst (λ l. HasBytes l b) (append_assoc (word_bytes (length s)) s rest) h))
      (λ (b₁, n) (h₁, e).
        let long : length s ≤ b₁.size = omega (arith, HasBytes-size h₁, length-append s rest) in
        let chars : take (length s) b₁.content ≡ s =
          sym (take-take (length s) b₁.size b₁.content long)
          ∙ ap (take (length s)) h₁.holds
          ∙ take-append s rest in
        rw (e, le→leb (length s) (capacity b₁) (omega (arith, h₁.fits)))
          (Returns-bind (HasBytes rest) (λ out. HasBytes rest (out.0) × (out.1 ≡ s)) _ _
            (skip-front s rest b₁ h₁) (λ b₂ h₂. (h₂, chars))))

-- The entries stored one after the other
abbrev pub load : Envp → Envp → Envp
load envp [] = envp
load envp (p ∷ ps) = load (set_val envp p.key p.val) ps

-- No key of the second environment is in the first one or stands twice.
abbrev pub AreNew : Envp → Envp → Type 0
AreNew envp [] = Unit {0}
AreNew envp (p ∷ ps) = (get_val envp p.key ≡ none) × AreNew (add envp p.key p.val) ps

load-append : (ps envp : Envp) → AreNew envp ps → load envp ps ≡ envp ++ ps
unfolding set_val
load-append [] envp new = sym (append_nil envp)
load-append (p ∷ ps) envp (fresh, new) =
    rw (set_val, fresh) (load-append ps (add envp p.key p.val) new ∙ append_assoc envp (p ∷ []) ps)

pub unpack-encode :
    (ps envp : Envp) (fuel : ℕ) (b : ResizableBuffer)
    → length ps < fuel
    → length (encode ps) < 2 ^ 32
    → HasBytes (encode ps) b
    → Returns (λ out. HasBytes [] (out.0) × (out.1 ≡ load envp ps)) (unpack fuel b envp)
unfolding unpack
unpack-encode ps envp zero b enough small h = absurd (omega arith)
unpack-encode [] envp (suc fuel) b enough small h =
    let z : b.size ≡ 0 = HasBytes-size h in rw (unpack, ==_yes b.size 0 z) (h, refl)
unpack-encode (p ∷ ps) envp (suc fuel) b enough small h =
    let size : b.size ≡ 4 + length p.key + (4 + length p.val + length (encode ps)) =
      HasBytes-size h ∙ length-encode p ps in
    let Result : ResizableBuffer × Envp → Type 0 =
      λ out. HasBytes [] (out.0) × (out.1 ≡ load envp (p ∷ ps)) in
    rw (unpack, ==_ne b.size 0 (λ z. absurd (omega arith)))
      (Returns-bind (λ out. HasBytes (item p.val ++ encode ps) (out.0) × (out.1 ≡ p.key)) Result _ _
        (unpack_item p.key (item p.val ++ encode ps) b (omega (arith, length-encode p ps)) h)
        (λ (b₁, key) (h₁, e₁).
          Returns-bind (λ out. HasBytes (encode ps) (out.0) × (out.1 ≡ p.val)) Result _ _
            (unpack_item p.val (encode ps) b₁ (omega (arith, length-encode p ps)) h₁)
            (λ (b₂, val) (h₂, e₂).
              rw (e₁, e₂)
                (unpack-encode ps (set_val envp p.key p.val) fuel b₂ (omega arith)
                  (omega (arith, length-encode p ps)) h₂))))

-- `Unpack` gives back the very environment that `Pack` has written to an empty buffer, and leaves the
-- buffer empty. No two entries have the same key, the strings with their lengths come to `limit` bytes
-- at most, which is below 2GB, each call of `malloc` gives a buffer when it is asked for at most
-- `limit` bytes, and one round more than there are entries is fuel enough.
pub unpack-pack :
    (mallocs : ℕ → ℕ → Option (List ℕ)) (limit : ℕ) (envp : Envp) (b : ResizableBuffer) (fuel : ℕ)
    → GrantsUpTo mallocs limit
    → limit < 2 ^ 31
    → HasBytes [] b
    → AreNew [] envp
    → length (encode envp) ≤ limit
    → length envp < fuel
    → Returns
        (λ out. HasBytes [] (out.0) × (out.1 ≡ envp))
        (pack mallocs envp b >>= λ packed. unpack fuel packed [])
unpack-pack mallocs limit envp b fuel grants small h new room enough =
    Returns-bind (HasBytes (encode envp)) (λ out. HasBytes [] (out.0) × (out.1 ≡ envp)) _ _
      (pack-encode mallocs limit envp [] b grants (omega arith) h (omega arith))
      (λ packed p.
        Returns-mono (λ out. HasBytes [] (out.0) × (out.1 ≡ load [] envp)) _ _
          (unpack-encode envp [] fuel packed enough (omega arith) p)
          (λ out (e, l). (e, l ∙ load-append envp [] new)))
