-- ===== src/Paging.antt =====
-- threads/init.c: `paging_init`, the page tables of the kernel.
pub mod Turns
pub mod Mapped
use os_pintos.Base.{
  ℕ, zero, suc, ◌+◌, ◌*◌, ◌/◌, ◌%◌, ◌^◌, ◌<◌, ◌≡◌, ◌≢◌, Bool, not, ◌&&◌, ◌==◌, ltb, leb,
  if◌then◌else◌,
}
use os_pintos.Kernel.{Ptr, null}

-- What the code uses of threads/pte.h, threads/vaddr.h, the loader and threads/palloc.c, with what
-- their comments promise.
pub record Memory : Type 0 where
  pub pd_no : (va : ℕ) → ℕ
  pub pt_no : (va : ℕ) → ℕ
  pub ptov : (paddr : ℕ) → ℕ
  pub pde_create : (pt : Ptr) → ℕ
  pub pde_get_pt : (pde : ℕ) → Ptr
  pub pte_create_kernel : (page : ℕ) → (writable : Bool) → ℕ
  -- The pages that successive calls of palloc_get_page return, and the number of free pages.
  pub supply : ℕ → Ptr
  pub free_pages : ℕ
  -- _start and _end_kernel_text
  pub start : ℕ
  pub end_kernel_text : ℕ
  -- PHYS_BASE in units of 4 MB, on whose boundary it must lie
  pub base : ℕ
  -- Bits 22 to 31 of an address are its page directory index, bits 12 to 21 its page table index.
  pub pd_no_lem : (va : ℕ) → va < 2 ^ 32 → pd_no va ≡ va / 2 ^ 22
  pub pt_no_lem : (va : ℕ) → va < 2 ^ 32 → pt_no va ≡ va / 2 ^ 12 % 2 ^ 10
  -- "Returns kernel virtual address at which physical address PADDR is mapped."
  pub ptov_lem : (paddr : ℕ) → ptov paddr ≡ 2 ^ 22 * base + paddr
  -- "Returns a PDE that points to page table PT."
  pub pde_create_present : (pt : Ptr) → pt % 2 ^ 12 ≡ 0 → pde_create pt ≢ 0
  -- "Returns a pointer to the page table that page directory entry PDE, which must "present", points
  -- to."
  pub pde_get_pt-pde_create : (pt : Ptr) → pt % 2 ^ 12 ≡ 0 → pde_get_pt (pde_create pt) ≡ pt
  -- "Obtains a single free page and returns its kernel virtual address."
  pub supply_aligned : (i : ℕ) → supply i % 2 ^ 12 ≡ 0
  pub supply_not_null : (i : ℕ) → supply i ≢ 0
  pub supply_distinct : (i j : ℕ) → (supply i == supply j) ≡ (i == j)

-- `taken` pages have been handed out; `words` has the 32-bit words of each page.
pub record Tables : Type 0 where
  pub taken : ℕ
  pub words : Ptr → ℕ → ℕ

-- The pointer that the code goes on with, or the end of the kernel.
pub data Paged : Type 0 where
  paged : Ptr → Tables → Paged
  panicked : Paged
  undefined : Paged

infixl 5 ◌>>=◌
abbrev pub ◌>>=◌ : Paged → (Ptr → Tables → Paged) → Paged
paged p s >>= f = f p s
panicked >>= f = panicked
undefined >>= f = undefined

abbrev pub zero_page : (Ptr → ℕ → ℕ) → Ptr → Ptr → ℕ → ℕ
zero_page words p a i = if a == p then 0 else words a i

abbrev pub set_word : (words : Ptr → ℕ → ℕ) (p : Ptr) (i v : ℕ) → Ptr → ℕ → ℕ
set_word words p i v a j = if (a == p) && (j == i) then v else words a j

module _ (memory : Memory) where
  -- palloc_get_page (PAL_ASSERT | PAL_ZERO)
  abbrev pub palloc_get_page : Tables → Paged
  palloc_get_page s =
      if ltb s.taken memory.free_pages
      then paged (memory.supply s.taken)
          (record { taken = suc s.taken; words = zero_page s.words (memory.supply s.taken) })
      else panicked

  -- The page table for an address, made where the page directory has none.
  unfoldable pub table_for : (pd pt : Ptr) (vaddr : ℕ) → Tables → Paged
  table_for pd pt vaddr s =
      if s.words pd (memory.pd_no vaddr) == 0
      then (palloc_get_page s >>= λ new s'.
          paged new (record s' {
            words = set_word s'.words pd (memory.pd_no vaddr) (memory.pde_create new);
          }))
      else paged pt s

  -- `in_kernel_text`
  abbrev pub in_kernel_text : ℕ → Bool
  in_kernel_text vaddr = leb memory.start vaddr && ltb vaddr memory.end_kernel_text

  -- A turn of the loop.
  unfoldable pub map_page : (page : ℕ) (pd pt : Ptr) → Tables → Paged
  unfolding table_for
  map_page page pd pt s =
      let vaddr = memory.ptov (page * 4096 % 2 ^ 32) in
      table_for pd pt vaddr s >>= λ pt' s'.
      if pt' == null
      then undefined
      else paged pt' (record s' {
        words =
            set_word s'.words pt' (memory.pt_no vaddr)
              (memory.pte_create_kernel vaddr (not (in_kernel_text vaddr)));
      })

  unfoldable pub map_pages : (left page : ℕ) (pd pt : Ptr) → Tables → Paged
  unfolding map_page
  map_pages zero page pd pt s = paged pt s
  map_pages (suc left) page pd pt s =
      map_page page pd pt s >>= λ pt' s'. map_pages left (suc page) pd pt' s'

  -- With the page directory, which the CPU then uses.
  unfoldable pub paging_init : (init_ram_pages : ℕ) → Tables → Paged
  unfolding map_pages
  paging_init init_ram_pages s = palloc_get_page s >>= λ pd s'.
      map_pages init_ram_pages 0 pd null s' >>= λ pt s''. paged pd s''
