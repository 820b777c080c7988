-- ===== src/Paging/Mapped.antt =====
-- The page tables map every page of physical memory.
use os_pintos.Base.{
  ℕ, zero, suc, ◌+◌, ◌/◌, ◌<◌, ◌≤◌, ◌≡◌, refl, sym, subst, ==_refl, inl, inr, Bool-cases, true,
  false, ltb, arith,
}
use os_pintos.Kernel.{Ptr, null}
use os_pintos.Paging.{Memory, Tables, paged, zero_page, map_pages, paging_init}
use os_pintos.Paging.Turns.{
  address, entry, directory, table, Built, Fits, Goes, indexes, map_page-Built, next-Goes,
}

module _ (memory : Memory) where
  map_pages-Built :
      (left page pages groups : ℕ) (pt : Ptr) (s : Tables)
      → Fits memory pages
      → page + left ≡ pages
      → Built memory page groups s
      → Goes memory page groups pt
      → (pt' : Ptr) × (groups' : ℕ) × (s' : Tables) × (map_pages memory left page
            (directory memory)
            pt
            s
          ≡ paged pt' s')
        × Built memory pages groups' s'
  unfolding map_pages
  map_pages-Built zero page pages groups pt s f h b g =
      (pt, groups, s, refl, subst (λ p. Built memory p groups s) (omega arith) b)
  map_pages-Built (suc left) page pages groups pt s f h b g =
      let (s', run, built) = map_page-Built memory page pages groups pt s f (omega arith) b g in
      let goes : Goes memory (suc page) (suc (page / 1024)) (table memory (page / 1024)) =
        next-Goes memory page in
      let (pt', groups', s'', run', built') =
        map_pages-Built left (suc page) pages (suc (page / 1024)) (table memory (page / 1024)) s' f
          (omega arith) built goes in
      (pt', groups', s'', rw run run', built')

  -- What the processor finds for an address, with the page directory at `pd`.
  abbrev pub translated : (pd : Ptr) (s : Tables) (va : ℕ) → ℕ
  translated pd s va = s.words (memory.pde_get_pt (s.words pd (memory.pd_no va))) (memory.pt_no va)

  translated_page :
      (page pages groups : ℕ) (s : Tables)
      → Fits memory pages
      → page < pages
      → Built memory pages groups s
      → translated (directory memory) s (address memory page) ≡ entry memory page
  translated_page page pages groups s f h b =
      let (paddr, directory_index, table_index) = indexes memory page pages f h in
      let here : page / 1024 < groups = omega (arith, b.covered, h) in
      let target =
        memory.pde_get_pt-pde_create (table memory (page / 1024))
          (memory.supply_aligned (suc (page / 1024))) in
      rw (translated, directory_index, b.present (page / 1024) here, target, table_index)
        (b.mapped page h)

  -- A page with this entry is mapped read-only if it begins within the kernel's text, from `_start` up
  -- to, but not with, `_end_kernel_text`, and writable if it begins before or behind it.
  pub data IsMapped (va entry : ℕ) : Type 0 where
    text :
        memory.start ≤ va
        → va < memory.end_kernel_text
        → entry ≡ memory.pte_create_kernel va false
        → IsMapped va entry
    before : va < memory.start → entry ≡ memory.pte_create_kernel va true → IsMapped va entry
    behind :
        memory.end_kernel_text ≤ va → entry ≡ memory.pte_create_kernel va true → IsMapped va entry

  entry-IsMapped : (page : ℕ) → IsMapped (address memory page) (entry memory page)
  entry-IsMapped page =
      let va = address memory page in
      elim (Bool-cases (ltb va memory.start)) [
        | inl low ↦ before (ground arith) (ground arith)
        | inr from_start ↦ elim (Bool-cases (ltb va memory.end_kernel_text)) [
          | inl inside ↦ text (ground arith) (ground arith) (ground arith)
          | inr beyond ↦ behind (ground arith) (ground arith)
        ]
      ]

  -- With no page handed out before, a free page for the directory and one for each 4 MB of the
  -- physical memory, whose last page ends by 2^32 in the kernel's addresses: the kernel does not
  -- panic, and each page of physical memory is mapped at its kernel virtual address, read-only exactly
  -- if it begins within the kernel's text, at or behind its start and before its end.
  pub paging_init_lem :
      (pages page : ℕ) (words : Ptr → ℕ → ℕ)
      → Fits memory pages
      → page < pages
      → (s : Tables) × (paging_init memory pages (record { taken = 0; words = words })
          ≡ paged (directory memory) s)
        × IsMapped (address memory page) (translated (directory memory) s (address memory page))
  unfolding paging_init
  paging_init_lem pages page words f h =
      let s0 : Tables = record { taken = 1; words = zero_page words (directory memory) } in
      let start : Built memory 0 0 s0 = record {
        taken = refl;
        covered = omega arith;
        present = λ j l. ground arith;
        absent = λ j l. ground (arith, ==_refl (directory memory));
        mapped = λ r l. ground arith;
      } in
      let (pt, groups, s, run, b) =
        map_pages-Built pages 0 pages 0 null s0 f (omega arith) start (inl refl) in
      let room : ltb 0 memory.free_pages ≡ true = ground (arith, f) in
      (
        s,
        rw room (rw run refl),
        subst (IsMapped (address memory page)) (sym (translated_page page pages groups s f h b))
            (entry-IsMapped page),
      )
