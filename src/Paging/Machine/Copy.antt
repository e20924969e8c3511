-- ===== src/Paging/Machine/Copy.antt =====
-- `memcpy` in one address space: the effect of the loop on physical memory.
use yet_another_project_i_ll.Base.{
  ℕ, zero, suc, ◌+◌, ◌<◌, ◌≡◌, refl, sym, ap, ◌∙◌, inl, inr, Option, some, arith, Copied, Apart,
  Copied-step, Returns, Returns-mono,
}
use yet_another_project_i_ll.Paging.Machine.{Machine, current_pd, with_byte, memcpy}
use yet_another_project_i_ll.Paging.{PageDirectory4m}

module _ (translate : PageDirectory4m → ℕ → Option ℕ) where
  -- The `n` addresses from `vaddr` on lie at the physical addresses from `paddr` on.
  abbrev pub Linear : PageDirectory4m → (vaddr paddr n : ℕ) → Type 0
  Linear pd vaddr paddr n = (i : ℕ) → i < n → translate pd (vaddr + i) ≡ some (paddr + i)

module _ (translate : PageDirectory4m → ℕ → Option ℕ) where
  Linear-next :
      (pd : PageDirectory4m) (vaddr paddr n : ℕ)
      → Linear translate pd vaddr paddr (suc n)
      → Linear translate pd (vaddr + 1) (paddr + 1) n
  Linear-next pd vaddr paddr n l i h =
      let v : vaddr + 1 + i ≡ vaddr + suc i = omega arith in
      let p : paddr + 1 + i ≡ paddr + suc i = omega arith in rw (v, p) (l (suc i) (omega arith))

  Linear-first :
      (pd : PageDirectory4m) (vaddr paddr n : ℕ)
      → Linear translate pd vaddr paddr (suc n)
      → translate pd vaddr ≡ some paddr
  Linear-first pd vaddr paddr n l =
      let v : vaddr ≡ vaddr + 0 = omega arith in
      let p : paddr ≡ paddr + 0 = omega arith in
      ap (translate pd) v ∙ l 0 (omega arith) ∙ ap some (sym p)

  Apart-next : (a b n : ℕ) → Apart a b (suc n) → Apart (a + 1) (b + 1) n
  Apart-next a b n (inl h) = inl (omega arith)
  Apart-next a b n (inr h) = inr (omega arith)

  -- Where the ranges do not overlap, `memcpy` returns with the bytes copied, and changes neither
  -- another byte of memory nor a page directory.
  pub memcpy_lem :
      (n : ℕ) (m : Machine) (dst src pdst psrc : ℕ)
      → Linear translate (current_pd m) dst pdst n
      → Linear translate (current_pd m) src psrc n
      → Apart pdst psrc n
      → Returns
          (λ q. (q ≡ record m { memory = q.memory }) × Copied m.memory pdst psrc n q.memory)
          (memcpy translate m dst src n)
  unfolding memcpy with_byte
  memcpy_lem zero m dst src pdst psrc ld ls apart =
      (refl, (λ i h. absurd (omega arith), λ a out. refl))
  memcpy_lem (suc n) m dst src pdst psrc ld ls apart =
      let next : Machine = with_byte m pdst (m.memory psrc) in
      rw (Linear-first (current_pd m) src psrc n ls, Linear-first (current_pd m) dst pdst n ld)
        (Returns-mono
          (λ q.
            (q ≡ record next { memory = q.memory })
            × Copied next.memory (pdst + 1) (psrc + 1) n q.memory)
          (λ q. (q ≡ record m { memory = q.memory }) × Copied m.memory pdst psrc (suc n) q.memory)
          (memcpy translate next (dst + 1) (src + 1) n)
          (memcpy_lem n next (dst + 1) (src + 1) (pdst + 1) (psrc + 1)
            (Linear-next (current_pd m) dst pdst n ld) (Linear-next (current_pd m) src psrc n ls)
            (Apart-next pdst psrc n apart))
          (λ q (same, copied). (same, Copied-step m.memory q.memory pdst psrc n apart copied)))
