-- ===== src/Channel/Tests.antt =====
-- Runs of an endpoint, with buffers full of zeros, and the theorems at concrete inputs.
use yet_another_project_i_ll.Base.{
  ℕ, ◌+◌, ◌≤◌, ◌<◌, ◌≡◌, refl, ◌⊎◌, inl, inr, Option, none, some, List, [], ◌∷◌, ◌++◌, arith, take,
  drop, replicate, length-replicate, ok, abort, Returns, copy_into, Grants,
}
use yet_another_project_i_ll.Channel.{
  Endpoint, reallocate, reserve_if_needed, write_self, read_self,
}
use yet_another_project_i_ll.Channel.Fifo.{pending, Fits, write_self-append, read_self-drop}

abbrev zeros : ℕ → Option (List ℕ)
zeros n = some (replicate n 0)

zeros-Grants : (n : ℕ) → Grants zeros n
zeros-Grants n = (replicate n 0, refl, length-replicate n 0)

-- two bytes in a buffer of four
abbrev two : Endpoint
two = record { size = 2; content = 7 ∷ 8 ∷ 0 ∷ 0 ∷ [] }

grows :
    (write_self zeros two (1 ∷ 2 ∷ 3 ∷ []) 3)
    ≡ ok (record { size = 5; content = 7 ∷ 8 ∷ 1 ∷ 2 ∷ 3 ∷ [] })
unfolding write_self reserve_if_needed reallocate copy_into
grows = refl

write_self-append_example :
    ((2 + 3 ≤ 4) ⊎ Grants zeros (2 + 3)
      → Returns
          (λ q. Fits q × (pending q ≡ pending two ++ take 3 (1 ∷ 2 ∷ 3 ∷ [])))
          (write_self zeros two (1 ∷ 2 ∷ 3 ∷ []) 3))
    × (4 < 2 + 3 → zeros (2 + 3) ≡ none → write_self zeros two (1 ∷ 2 ∷ 3 ∷ []) 3 ≡ abort)
write_self-append_example =
    write_self-append zeros two (1 ∷ 2 ∷ 3 ∷ []) 3 (omega arith) (omega arith) (omega arith)

appends :
    Returns
      (λ q. Fits q × (pending q ≡ pending two ++ take 3 (1 ∷ 2 ∷ 3 ∷ [])))
      (write_self zeros two (1 ∷ 2 ∷ 3 ∷ []) 3)
appends =
    (write_self-append zeros two (1 ∷ 2 ∷ 3 ∷ []) 3 (omega arith) (omega arith) (omega arith)).0
      (inr (zeros-Grants 5))

abbrev one : ℕ
one = 1

reads :
    Returns
      (λ out.
        Fits (out.0)
        × (out.1 ≡ inl (take 1 (pending two)))
        × (pending (out.0) ≡ drop 1 (pending two)))
      (read_self zeros two 1)
reads = (read_self-drop zeros two 1 (omega arith)).0 (omega arith) (inr (inr (zeros-Grants 1)))
