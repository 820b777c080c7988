-- ===== src/Paging/Turns.antt =====
-- The page tables as the loop fills them, turn by turn.
use os_pintos.Base.{
  ℕ, suc, ◌+◌, ◌*◌, ◌/◌, ◌%◌, ◌^◌, ◌≤◌, ◌<◌, ◌≡◌, ◌⊎◌, refl, subst, ap, ==_refl, inl, inr,
  Bool-cases, true, false, not, ◌==◌, ltb, arith,
}
use os_pintos.Kernel.{Ptr, null}
use os_pintos.Paging.{
  Memory, Tables, paged, zero_page, set_word, table_for, in_kernel_text, map_page,
}

module _ (memory : Memory) where
  abbrev pub address : (page : ℕ) → ℕ
  address page = memory.ptov (page * 4096)

  -- The entry for a page that is writable outside the kernel's text.
  abbrev pub entry : (page : ℕ) → ℕ
  entry page = memory.pte_create_kernel (address page) (not (in_kernel_text memory (address page)))

  abbrev pub directory : Ptr
  directory = memory.supply 0

  abbrev pub table : ℕ → Ptr
  table j = memory.supply (suc j)

  -- The first `page` pages are mapped, by `groups` page tables.
  pub record Built (page groups : ℕ) (s : Tables) : Type 0 where
    pub taken : s.taken ≡ suc groups
    pub covered : page ≤ 1024 * groups
    pub present :
        (j : ℕ) → j < groups → s.words directory (memory.base + j) ≡ memory.pde_create (table j)
    pub absent : (j : ℕ) → groups ≤ j → s.words directory (memory.base + j) ≡ 0
    pub mapped : (r : ℕ) → r < page → s.words (table (r / 1024)) (r % 1024) ≡ entry r

  abbrev with_table : (groups : ℕ) → Tables → Tables
  with_table groups s = record {
    taken = suc (suc groups);
    words =
        set_word (zero_page s.words (table groups)) directory (memory.base + groups)
          (memory.pde_create (table groups));
  }

  with_table-Built :
      (page groups : ℕ) (s : Tables)
      → Built page groups s
      → Built page (suc groups) (with_table groups s)
  with_table-Built page groups s b = record {
    taken = refl;
    covered = omega (arith, b.covered);
    present = λ j h. ground (arith, b.present j, memory.supply_distinct 0 (suc groups));
    absent = λ j h. ground (arith, b.absent j, memory.supply_distinct 0 (suc groups));
    mapped = λ r h. ground (
      arith,
      b.mapped r h,
      b.covered,
      memory.supply_distinct (suc (r / 1024)) 0,
      memory.supply_distinct (suc (r / 1024)) (suc groups),
    );
  }

  abbrev with_entry : (page : ℕ) → Tables → Tables
  with_entry page s = record s {
    words = set_word s.words (table (page / 1024)) (page % 1024) (entry page);
  }

  mapped_too :
      (page r : ℕ) (s : Tables)
      → Built page (suc (page / 1024)) s
      → r < suc page
      → (with_entry page s).words (table (r / 1024)) (r % 1024) ≡ entry r
  mapped_too page r s b h = elim (Bool-cases (r == page)) [
    | inl same ↦
        let here : page ≡ r = ground arith in
        subst (λ x. (with_entry page s).words (table (x / 1024)) (x % 1024) ≡ entry x) here
          (ground (arith, ==_refl (table (page / 1024))))
    | inr other ↦
        let before : r < page = ground arith in
        ground
          (arith, b.mapped r before, memory.supply_distinct (suc (r / 1024)) (suc (page / 1024)))
  ]

  with_entry-Built :
      (page : ℕ) (s : Tables)
      → Built page (suc (page / 1024)) s
      → Built (suc page) (suc (page / 1024)) (with_entry page s)
  with_entry-Built page s b = record {
    taken = b.taken;
    covered = omega arith;
    present = λ j h. ground (arith, b.present j h, memory.supply_distinct 0 (suc (page / 1024)));
    absent = λ j h. ground (arith, b.absent j h, memory.supply_distinct 0 (suc (page / 1024)));
    mapped = λ r h. mapped_too page r s b h;
  }

  abbrev pub Fits : (pages : ℕ) → Type 0
  Fits pages = (1024 * memory.base + pages ≤ 2 ^ 20) × ((pages + 1023) / 1024 < memory.free_pages)

  -- The last table, if it is not full.
  abbrev pub Goes : (page groups : ℕ) (pt : Ptr) → Type 0
  Goes page groups pt =
      (groups ≡ page / 1024) ⊎ ((groups ≡ suc (page / 1024)) × (pt ≡ table (page / 1024)))

  pub indexes :
      (page pages : ℕ)
      → Fits pages
      → page < pages
      → (memory.ptov (page * 4096 % 2 ^ 32) ≡ address page)
        × (memory.pd_no (address page) ≡ memory.base + page / 1024)
        × (memory.pt_no (address page) ≡ page % 1024)
  indexes page pages f h =
      let e = memory.ptov_lem (page * 4096) in
      let small : 2 ^ 22 * memory.base + page * 4096 < 2 ^ 32 = omega (arith, f) in
      let page_number : page * 4096 % 2 ^ 32 ≡ page * 4096 = omega arith in
      (
        ap memory.ptov page_number,
        rw (memory.pd_no_lem (address page) (rw e small), e) (omega arith),
        rw (memory.pt_no_lem (address page) (rw e small), e) (omega arith),
      )

  table_for-Built :
      (page pages groups : ℕ) (pt : Ptr) (s : Tables)
      → Fits pages
      → page < pages
      → Built page groups s
      → Goes page groups pt
      → (s' : Tables) × (table_for memory directory pt (address page) s
          ≡ paged (table (page / 1024)) s')
        × Built page (suc (page / 1024)) s'
  unfolding table_for
  table_for-Built page pages groups pt s f h b (inl full) =
      let b' : Built page (page / 1024) s = subst (λ g. Built page g s) full b in
      let (paddr, directory_index, table_index) = indexes page pages f h in
      let room : ltb s.taken memory.free_pages ≡ true = ground (arith, b'.taken, f) in
      (
        with_table (page / 1024) s,
        rw directory_index
            (rw (b'.absent (page / 1024) (omega arith)) (rw room (rw (b'.taken) refl))),
        with_table-Built page (page / 1024) s b',
      )
  table_for-Built page pages groups pt s f h b (inr (e, last)) =
      let b' : Built page (suc (page / 1024)) s = subst (λ g. Built page g s) e b in
      let (paddr, directory_index, table_index) = indexes page pages f h in
      (
        s,
        rw directory_index (
            ground (
              arith,
              b'.present (page / 1024),
              last,
              memory.pde_create_present (table (page / 1024))
                  (memory.supply_aligned (suc (page / 1024))),
            )),
        b',
      )

  pub map_page-Built :
      (page pages groups : ℕ) (pt : Ptr) (s : Tables)
      → Fits pages
      → page < pages
      → Built page groups s
      → Goes page groups pt
      → (s' : Tables) × (map_page memory page directory pt s ≡ paged (table (page / 1024)) s')
        × Built (suc page) (suc (page / 1024)) s'
  unfolding map_page
  map_page-Built page pages groups pt s f h b g =
      let (s', run, built) = table_for-Built page pages groups pt s f h b g in
      let (paddr, directory_index, table_index) = indexes page pages f h in
      let some_table : (table (page / 1024) == null) ≡ false =
        ground (arith, memory.supply_not_null (suc (page / 1024))) in
      (
        with_entry page s',
        rw paddr (rw run (rw some_table (rw table_index refl))),
        with_entry-Built page s' built,
      )

  pub next-Goes : (page : ℕ) → Goes (suc page) (suc (page / 1024)) (table (page / 1024))
  next-Goes page = elim (Bool-cases (suc page / 1024 == page / 1024)) [
    | inl within ↦
        let same : page / 1024 ≡ suc page / 1024 = ground arith in inr (ap suc same, ap table same)
    | inr crossing ↦ inl (ground arith)
  ]
