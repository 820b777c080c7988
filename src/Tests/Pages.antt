-- ===== src/Tests/Pages.antt =====
-- Page tables for 5 MB of memory.
use os_pintos.Base.{ℕ, ◌+◌, ◌*◌, ◌/◌, ◌%◌, ◌^◌, ◌≡◌, refl, ◌==◌, if◌then◌else◌, arith}
use os_pintos.Paging.{Memory, Tables, paged, paging_init}
use os_pintos.Paging.Turns.{address, directory}
use os_pintos.Paging.Mapped.{IsMapped, translated, paging_init_lem}

abbrev page_from_16mb : ℕ → ℕ
page_from_16mb i = 2 ^ 22 * 772 + i * 4096

page_from_16mb-distinct : (i j : ℕ) → (page_from_16mb i == page_from_16mb j) ≡ (i == j)
page_from_16mb-distinct i j = ground arith

-- A page directory or page table entry is an address and its low bits, and the free pages are those
-- from 16 MB on.
abbrev pages_from_16mb : Memory
pages_from_16mb = record {
  pd_no = λ va. va / 2 ^ 22;
  pt_no = λ va. va / 2 ^ 12 % 2 ^ 10;
  ptov = λ paddr. 2 ^ 22 * 768 + paddr;
  pde_create = λ pt. pt + 7;
  pde_get_pt = λ pde. pde / 2 ^ 12 * 2 ^ 12;
  pte_create_kernel = λ page writable. page + (if writable then 3 else 1);
  supply = page_from_16mb;
  free_pages = 100;
  start = 2 ^ 22 * 768 + 2 ^ 17;
  end_kernel_text = 2 ^ 22 * 768 + 2 ^ 18;
  base = 768;
  pd_no_lem = λ va h. refl;
  pt_no_lem = λ va h. refl;
  ptov_lem = λ paddr. refl;
  pde_create_present = λ pt h. omega arith;
  pde_get_pt-pde_create = λ pt h. omega arith;
  supply_aligned = λ i. omega arith;
  supply_not_null = λ i. omega arith;
  supply_distinct = page_from_16mb-distinct;
}

abbrev unused : ℕ → ℕ → ℕ
unused p i = 0

paging_init_lem_example :
    (s : Tables) × (paging_init pages_from_16mb 1280 (record { taken = 0; words = unused })
      ≡ paged (directory pages_from_16mb) s)
    × IsMapped pages_from_16mb
        (address pages_from_16mb 1100)
        (translated pages_from_16mb (directory pages_from_16mb) s (address pages_from_16mb 1100))
paging_init_lem_example =
    paging_init_lem pages_from_16mb 1280 1100 unused (omega arith) (omega arith)
