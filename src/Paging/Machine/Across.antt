-- ===== src/Paging/Machine/Across.antt =====
-- `Memcpy` of kernel/paging.cpp between two address spaces, whichever of them is the current one.
use yet_another_project_i_ll.Base.{
  ℕ, ◌+◌, ◌/◌, ◌%◌, ◌^◌, ◌<◌, ◌≡◌, sym, ap, subst, fun_ext, ◌∙◌, ◌≢◌, inl, inr, ◌&&◌, Option, none,
  some, arith, ◌==◌, if◌then◌else◌, ==_ne, Bool-cases, length, Copied, Apart, ◌>>=◌, Returns,
  Returns-mono, Returns-bind,
}
use yet_another_project_i_ll.Paging.Machine.{
  Machine, current_pd, bring_in, release, memcpy, memcpy_mapped, memcpy_across,
}
use yet_another_project_i_ll.Paging.{PageDirectory4m}
use yet_another_project_i_ll.Paging.Map.{mapping, IsPageAddr}
use yet_another_project_i_ll.Paging.Machine.TempMap.{
  Walks, OnPage, OnPage-Linear, over, under, Shows,
}
use yet_another_project_i_ll.Paging.Machine.Copy.{memcpy_lem}
use yet_another_project_i_ll.Paging.Machine.Slots.{
  slot, IsFree, over_taken, still_free, under_taken, under-over, Brought, bring_in_lem, release_lem,
}
use native.Mathlib.Decide.{ℕ_discrete}

-- What a copy of `n` bytes between physical addresses leaves: the bytes copied, and every page of
-- every directory mapped as before.
pub record Transfers (m : Machine) (dst src n : ℕ) (q : Machine) : Type 0 where
  pub current : q.current ≡ m.current
  pub others : (i : ℕ) → i ≢ m.current → q.dirs i ≡ m.dirs i
  pub maps : (j : ℕ) → mapping (current_pd q) j ≡ mapping (current_pd m) j
  pub bytes : Copied m.memory dst src n q.memory

-- A directory other than the current one is left alone, and the current one keeps what it maps.
keep-OnPage :
    (m q : Machine) (s : Option ℕ) (page d vaddr n p : ℕ)
    → Shows m q (over s page (mapping (current_pd m)))
    → IsFree (mapping (current_pd m)) s
    → OnPage (m.dirs d) vaddr n p
    → OnPage (q.dirs d) vaddr n p
keep-OnPage m q s page d vaddr n p shows free on = elim (ℕ_discrete d m.current) [
  | yes e ↦
      let at : q.dirs d ≡ current_pd q = ap q.dirs (e ∙ sym shows.current) in
      let was : mapping (current_pd m) (vaddr / 2 ^ 22) ≡ some p =
        subst (λ i. mapping (m.dirs i) (vaddr / 2 ^ 22) ≡ some p) e on.maps in
      record {
        maps =
            rw (at, shows.maps (vaddr / 2 ^ 22)) (over_taken s page p _ (vaddr / 2 ^ 22) free was);
        fits = on.fits;
        word = on.word;
      }
  | no ne ↦ rw (shows.others d ne) on
]

keep-length :
    (m q : Machine) (f : ℕ → Option ℕ) (d : ℕ)
    → Shows m q f
    → length (m.dirs d) ≡ 1024
    → length (q.dirs d) ≡ 1024
keep-length m q f d shows size = elim (ℕ_discrete d m.current) [
  | yes e ↦ ap (λ i. length (q.dirs i)) (e ∙ sym shows.current) ∙ shows.size
  | no ne ↦ rw (shows.others d ne) size
]

slot-current : (m q : Machine) (pd at : ℕ) → q.current ≡ m.current → slot q pd at ≡ slot m pd at
slot-current m q pd at e = ap (λ c. if pd == c then none else some (at / 2 ^ 22)) e

-- A temporary mapping does not lie where the destination of the copy does.
distinct :
    (m m₁ : Machine) (src_pd dst_pd dst psrc pdst this_src this_dst : ℕ)
    → m₁.current ≡ m.current
    → mapping (current_pd m₁) (this_src / 2 ^ 22) ≡ some psrc
    → IsFree (mapping (current_pd m)) (slot m src_pd this_src)
    → IsFree (mapping (current_pd m₁)) (slot m₁ dst_pd this_dst)
    → mapping (m.dirs dst_pd) (dst / 2 ^ 22) ≡ some pdst
    → (dst_pd ≡ m₁.current → this_dst ≡ dst)
    → slot m src_pd this_src ≢ some (this_dst / 2 ^ 22)
distinct m m₁ src_pd dst_pd dst psrc pdst this_src this_dst same maps free free₁ dst_maps kept e =
    elim (ℕ_discrete dst_pd m₁.current) [
      | yes here ↦
          let dst_free : IsFree (mapping (current_pd m)) (some (this_dst / 2 ^ 22)) =
            subst (IsFree (mapping (current_pd m))) e free in
          let current : mapping (current_pd m) (dst / 2 ^ 22) ≡ some pdst =
            subst (λ i. mapping (m.dirs i) (dst / 2 ^ 22) ≡ some pdst) (here ∙ same) dst_maps in
          cc (ap (λ v. mapping (current_pd m) (v / 2 ^ 22)) (kept here))
      | no there ↦
          let own : IsFree (mapping (current_pd m₁)) (some (this_dst / 2 ^ 22)) =
            subst (IsFree (mapping (current_pd m₁)))
              (ap (λ b. if b then none else some (this_dst / 2 ^ 22))
                (==_ne dst_pd m₁.current there))
              free₁ in
          elim (Bool-cases (src_pd == m.current)) [
            | inl home ↦ cc (ap (λ b. if b then none else some (this_src / 2 ^ 22)) home)
            | inr away ↦
                let at : some (this_src / 2 ^ 22) ≡ some (this_dst / 2 ^ 22) =
                  sym (ap (λ b. if b then none else some (this_src / 2 ^ 22)) away) ∙ e in
                let numbers : this_src / 2 ^ 22 ≡ this_dst / 2 ^ 22 = ground arith in
                cc (ap (mapping (current_pd m₁)) numbers)
          ]
    ]

module _ (m m₁ m₂ : Machine) (src_pd dst_pd src dst size psrc pdst this_src this_dst : ℕ)
    (b₁ : Brought m m₁ src_pd src size psrc this_src)
    (b₂ : Brought m₁ m₂ dst_pd dst size pdst this_dst)
    (apart_slots : slot m src_pd this_src ≢ some (this_dst / 2 ^ 22)) where
  src_on : OnPage (current_pd m₂) this_src size psrc
  src_on =
      subst (λ i. OnPage (m₂.dirs i) this_src size psrc) (sym b₂.shows.current)
        (keep-OnPage m₁ m₂ _ pdst m₁.current this_src size psrc b₂.shows b₂.free b₁.on)

  -- Both ends released: what was mapped before is mapped again.
  released-maps :
      (f : ℕ → Option ℕ) (j : ℕ)
      → ((i : ℕ) → f i ≡ under (slot m src_pd this_src) (mapping (current_pd m₂)) i)
      → under (slot m₁ dst_pd this_dst) f j ≡ mapping (current_pd m) j
  released-maps f j e =
      let one : mapping (current_pd m₁)
          ≡ over (slot m src_pd this_src) psrc (mapping (current_pd m)) =
        fun_ext b₁.shows.maps in
      let two : mapping (current_pd m₂)
          ≡ over (slot m₁ dst_pd this_dst) pdst
              (over (slot m src_pd this_src) psrc (mapping (current_pd m))) =
        fun_ext b₂.shows.maps ∙ ap (over (slot m₁ dst_pd this_dst) pdst) one in
      ap (λ g. under (slot m₁ dst_pd this_dst) g j)
        (fun_ext e ∙ ap (under (slot m src_pd this_src)) two)
      ∙ under-over (slot m src_pd this_src) (slot m₁ dst_pd this_dst) psrc pdst _ j b₁.free
          (subst (λ g. IsFree g (slot m₁ dst_pd this_dst)) one b₂.free)

  release_both :
      (g : ℕ → ℕ)
      → Copied m.memory (pdst + dst % 2 ^ 22) (psrc + src % 2 ^ 22) size g
      → Returns
          (Transfers m (pdst + dst % 2 ^ 22) (psrc + src % 2 ^ 22) size)
          (release (record m₂ { memory = g }) src_pd this_src >>= λ m₄. release m₄ dst_pd this_dst)
  release_both g copied =
      let m₃ : Machine = record m₂ { memory = g } in
      let kept₃ : m₃.current ≡ m.current = b₂.shows.current ∙ b₁.shows.current in
      Returns-bind (λ m₄. Shows m₃ m₄ (under (slot m₃ src_pd this_src) (mapping (current_pd m₂))))
        (Transfers m (pdst + dst % 2 ^ 22) (psrc + src % 2 ^ 22) size) _ _
        (release_lem m₃ b₂.shows.size src_pd this_src psrc src_on.word src_on.maps)
        (λ m₄ shows₄.
          let maps₄ : (j : ℕ)
              → mapping (current_pd m₄) j
                ≡ under (slot m src_pd this_src) (mapping (current_pd m₂)) j =
            λ j.
              shows₄.maps j
              ∙ ap (λ s. under s (mapping (current_pd m₂)) j)
                  (slot-current m m₃ src_pd this_src kept₃) in
          let taken : mapping (current_pd m₄) (this_dst / 2 ^ 22) ≡ some pdst =
            maps₄ (this_dst / 2 ^ 22)
            ∙ under_taken (slot m src_pd this_src) _ (this_dst / 2 ^ 22) pdst apart_slots
                b₂.on.maps in
          let kept₄ : m₄.current ≡ m.current = shows₄.current ∙ kept₃ in
          Returns-mono
            (λ m₅. Shows m₄ m₅ (under (slot m₄ dst_pd this_dst) (mapping (current_pd m₄))))
            (Transfers m (pdst + dst % 2 ^ 22) (psrc + src % 2 ^ 22) size) _
            (release_lem m₄ shows₄.size dst_pd this_dst pdst b₂.on.word taken)
            (λ m₅ shows₅. record {
              current = shows₅.current ∙ kept₄;
              others = λ i ne.
                  shows₅.others i (λ e. ne (e ∙ kept₄))
                  ∙ shows₄.others i (λ e. ne (e ∙ kept₃))
                  ∙ b₂.shows.others i (λ e. ne (e ∙ b₁.shows.current))
                  ∙ b₁.shows.others i ne;
              maps = λ j.
                  shows₅.maps j
                  ∙ ap (λ t. under t (mapping (current_pd m₄)) j)
                      (slot-current m₁ m₄ dst_pd this_dst (shows₄.current ∙ b₂.shows.current))
                  ∙ released-maps (mapping (current_pd m₄)) j maps₄;
              bytes = rw (shows₅.memory ∙ shows₄.memory) copied;
            }))

  -- The copy between the two ends, and the release of both.
  copy_and_release :
      (translate : PageDirectory4m → ℕ → Option ℕ)
      → Walks translate
      → Apart (pdst + dst % 2 ^ 22) (psrc + src % 2 ^ 22) size
      → Returns (Transfers m (pdst + dst % 2 ^ 22) (psrc + src % 2 ^ 22) size) (
          memcpy translate m₂ this_dst this_src size >>= λ m₃.
          release m₃ src_pd this_src >>= λ m₄. release m₄ dst_pd this_dst)
  copy_and_release translate walks apart =
      let to : pdst + this_dst % 2 ^ 22 ≡ pdst + dst % 2 ^ 22 =
        ap (λ (o : ℕ). pdst + o) b₂.offset in
      let from : psrc + this_src % 2 ^ 22 ≡ psrc + src % 2 ^ 22 =
        ap (λ (o : ℕ). psrc + o) b₁.offset in
      let before : m₂.memory ≡ m.memory = b₂.shows.memory ∙ b₁.shows.memory in
      Returns-bind
        (λ q.
          (q ≡ record m₂ { memory = q.memory })
          × Copied m₂.memory (pdst + dst % 2 ^ 22) (psrc + src % 2 ^ 22) size q.memory)
        (Transfers m (pdst + dst % 2 ^ 22) (psrc + src % 2 ^ 22) size) _ _
        (memcpy_lem translate size m₂ this_dst this_src _ _
          (rw to at (OnPage-Linear translate (current_pd m₂) this_dst size pdst walks b₂.on))
          (rw from at (OnPage-Linear translate (current_pd m₂) this_src size psrc walks src_on))
          apart)
        (λ q (same, copied).
          subst
            (λ k.
              Returns (Transfers m (pdst + dst % 2 ^ 22) (psrc + src % 2 ^ 22) size)
                (release k src_pd this_src >>= λ m₄. release m₄ dst_pd this_dst))
            (sym same) (release_both q.memory (rw before at copied)))

-- A copy within the current address space.
memcpy_here :
    (translate : PageDirectory4m → ℕ → Option ℕ) (m : Machine) (src dst size psrc pdst : ℕ)
    → Walks translate
    → OnPage (current_pd m) src size psrc
    → OnPage (current_pd m) dst size pdst
    → Apart (pdst + dst % 2 ^ 22) (psrc + src % 2 ^ 22) size
    → Returns
        (Transfers m (pdst + dst % 2 ^ 22) (psrc + src % 2 ^ 22) size)
        (memcpy translate m dst src size)
memcpy_here translate m src dst size psrc pdst walks src_on dst_on apart =
    Returns-mono
      (λ q.
        (q ≡ record m { memory = q.memory })
        × Copied m.memory (pdst + dst % 2 ^ 22) (psrc + src % 2 ^ 22) size q.memory)
      (Transfers m (pdst + dst % 2 ^ 22) (psrc + src % 2 ^ 22) size) _
      (memcpy_lem translate size m dst src _ _
        (OnPage-Linear translate (current_pd m) dst size pdst walks dst_on)
        (OnPage-Linear translate (current_pd m) src size psrc walks src_on) apart)
      (λ q (same, copied). record {
        current = ap (λ (k : Machine). k.current) same;
        others = λ i ne. ap (λ (k : Machine). k.dirs i) same;
        maps = λ j. ap (λ (k : Machine). mapping (current_pd k) j) same;
        bytes = copied;
      })

module _ (translate : PageDirectory4m → ℕ → Option ℕ) (m : Machine)
    (src_pd dst_pd src dst size psrc pdst free₁ free₂ : ℕ) (walks : Walks translate)
    (sizes : (i : ℕ) → length (m.dirs i) ≡ 1024) (src_on : OnPage (m.dirs src_pd) src size psrc)
    (dst_on : OnPage (m.dirs dst_pd) dst size pdst) (psrc_ok : IsPageAddr psrc)
    (pdst_ok : IsPageAddr pdst) (apart : Apart (pdst + dst % 2 ^ 22) (psrc + src % 2 ^ 22) size)
    (in₁ : free₁ < 1024) (in₂ : free₂ < 1024) (ne : free₁ ≢ free₂)
    (open₁ : mapping (current_pd m) free₁ ≡ none)
    (open₂ : mapping (current_pd m) free₂ ≡ none) where
  -- After the source has been brought in there is a free page left for the destination.
  second :
      (m₁ : Machine) (this_src : ℕ)
      → Brought m m₁ src_pd src size psrc this_src
      → Returns
          (λ (m₂, this_dst). Brought m₁ m₂ dst_pd dst size pdst this_dst)
          (bring_in m₁ dst_pd dst)
  second m₁ this_src b =
      let dst_len : length (m₁.dirs dst_pd) ≡ 1024 =
        keep-length m m₁ _ dst_pd b.shows (sizes dst_pd) in
      let on : OnPage (m₁.dirs dst_pd) dst size pdst =
        keep-OnPage m m₁ _ psrc dst_pd dst size pdst b.shows b.free dst_on in
      elim (still_free (slot m src_pd this_src) psrc free₁ free₂ (mapping (current_pd m)) ne open₁
        open₂) [
          | inl e ↦
              bring_in_lem m₁ b.shows.size dst_pd dst size pdst free₁ dst_len on pdst_ok in₁
                (b.shows.maps free₁ ∙ e)
          | inr e ↦
              bring_in_lem m₁ b.shows.size dst_pd dst size pdst free₂ dst_len on pdst_ok in₂
                (b.shows.maps free₂ ∙ e)
        ]

  memcpy_mapped_lem :
      Returns
        (Transfers m (pdst + dst % 2 ^ 22) (psrc + src % 2 ^ 22) size)
        (memcpy_mapped translate m src_pd dst_pd src dst size)
  unfolding memcpy_mapped
  memcpy_mapped_lem =
      Returns-bind (λ (m₁, this_src). Brought m m₁ src_pd src size psrc this_src)
        (Transfers m (pdst + dst % 2 ^ 22) (psrc + src % 2 ^ 22) size) _ _
        (bring_in_lem m (sizes m.current) src_pd src size psrc free₁ (sizes src_pd) src_on psrc_ok
          in₁ open₁)
        (λ (m₁, this_src) b₁.
          Returns-bind (λ (m₂, this_dst). Brought m₁ m₂ dst_pd dst size pdst this_dst)
            (Transfers m (pdst + dst % 2 ^ 22) (psrc + src % 2 ^ 22) size) _ _
            (second m₁ this_src b₁)
            (λ (m₂, this_dst) b₂.
              copy_and_release m m₁ m₂ src_pd dst_pd src dst size psrc pdst this_src this_dst b₁ b₂
                (distinct m m₁ src_pd dst_pd dst psrc pdst this_src this_dst b₁.shows.current
                  b₁.on.maps b₁.free b₂.free dst_on.maps b₂.kept)
                translate walks apart))

  -- A copy of bytes that lie on one page of `src_pd` to bytes on one page of `dst_pd` returns, with
  -- exactly those bytes of physical memory copied and every page of every directory mapped as before,
  -- whichever of the directories is the current one. It wants two free virtual pages in the current
  -- directory for the temporary mappings, and that the two pieces of memory do not overlap.
  pub memcpy_across_lem :
      Returns
        (Transfers m (pdst + dst % 2 ^ 22) (psrc + src % 2 ^ 22) size)
        (memcpy_across translate m src_pd dst_pd src dst size)
  unfolding memcpy_across
  memcpy_across_lem = elim (Bool-cases (src_pd == dst_pd && m.current == src_pd)) [
    | inl fast ↦
        let at_src : src_pd ≡ m.current = ground arith in
        let at_dst : dst_pd ≡ m.current = ground arith in
        rw fast (
          memcpy_here translate m src dst size psrc pdst walks
            (subst (λ i. OnPage (m.dirs i) src size psrc) at_src src_on)
            (subst (λ i. OnPage (m.dirs i) dst size pdst) at_dst dst_on) apart)
    | inr slow ↦ rw slow memcpy_mapped_lem
  ]
