-- ===== src/Platform.antt =====
-- The code that the threads component calls and that stands outside the repository's files:
-- lib/kernel/list.c, threads/interrupt.c and threads/switch.h of Pintos, as an interface.
-- A `struct list` is the sequence of its elements, and an element is the pointer to the structure
-- in which it is embedded. The laws are what the comments of those files promise.
pub mod Reference
use os_pintos.Base.{ℕ, ◌≡◌, Bool, true, false, Option, some, List, [], ◌∷◌, ◌++◌}
use os_pintos.Base.{length, is_empty, has, All}
use os_pintos.Base.Sorted.{IsSorted, IsAsym, IsNegTrans}

-- The state that interrupt.c keeps: is the level INTR_ON, is a handler running, has the handler
-- asked for a yield on its return?
pub record Intr : Type 0 where
  pub on : Bool
  pub context : Bool
  pub yield_on_return : Bool

-- `list_less_func`
abbrev pub Less : Type 0
Less = ℕ → ℕ → Bool

pub record Platform : Type 0 where
  pub list_empty : List ℕ → Bool
  pub list_front : List ℕ → ℕ
  pub list_pop_front : List ℕ → ℕ × List ℕ
  pub list_push_back : List ℕ → ℕ → List ℕ
  pub list_insert_ordered : List ℕ → ℕ → Less → List ℕ
  pub list_remove : ℕ → List ℕ → List ℕ
  pub list_max : List ℕ → Less → ℕ
  pub list_size : List ℕ → ℕ
  pub intr_disable : Intr → Intr
  pub intr_set_level : Bool → Intr → Intr
  pub intr_yield_on_return : Intr → Intr
  -- sizeof (struct switch_entry_frame) and sizeof (struct switch_threads_frame)
  pub switch_entry_frame : ℕ
  pub switch_threads_frame : ℕ
  -- the addresses that the linker gives to switch_entry, of threads/switch.S, and to kernel_thread
  pub switch_entry : ℕ
  pub kernel_thread : ℕ
  -- "Returns true if LIST is empty, false otherwise."
  pub list_empty_lem : (l : List ℕ) → list_empty l ≡ is_empty l
  -- "Returns the front element in LIST. Undefined behavior if LIST is empty."
  pub list_front_lem : (x : ℕ) (l : List ℕ) → list_front (x ∷ l) ≡ x
  -- "Removes the front element from LIST and returns it."
  pub list_pop_front_lem : (x : ℕ) (l : List ℕ) → list_pop_front (x ∷ l) ≡ (x, l)
  -- "Inserts ELEM at the end of LIST, so that it becomes the back in LIST."
  pub list_push_back_lem : (l : List ℕ) (x : ℕ) → list_push_back l x ≡ l ++ x ∷ []
  -- "Returns the number of elements in LIST."
  pub list_size_lem : (l : List ℕ) → list_size l ≡ length l
  -- "Inserts ELEM in the proper position in LIST, which must be sorted according to LESS."
  pub list_insert_ordered_splits :
      (l : List ℕ) (x : ℕ) (less : Less)
      → (before : List ℕ) × (after : List ℕ) × (l ≡ before ++ after)
        × (list_insert_ordered l x less ≡ before ++ x ∷ after)
  pub list_insert_ordered-IsSorted :
      (l : List ℕ) (x : ℕ) (less : Less)
      → IsAsym less
      → IsSorted less l
      → IsSorted less (list_insert_ordered l x less)
  -- "Removes ELEM from its list." An element stands on a list at most once.
  pub list_remove_lem :
      (x : ℕ) (before after : List ℕ)
      → has x before ≡ false
      → list_remove x (before ++ x ∷ after) ≡ before ++ after
  -- "Returns the element in LIST with the largest value according to LESS."
  pub list_max_mem : (x : ℕ) (l : List ℕ) (less : Less) → has (list_max (x ∷ l) less) (x ∷ l) ≡ true
  pub list_max_highest :
      (x : ℕ) (l : List ℕ) (less : Less)
      → IsAsym less
      → IsNegTrans less
      → All (λ y. less (list_max (x ∷ l) less) y ≡ false) (x ∷ l)
  -- "intr_disable: Disables interrupts", "intr_set_level: Enables or disables interrupts as
  -- specified by LEVEL", "intr_yield_on_return: During processing of an external interrupt, directs
  -- the interrupt handler to yield to a new process just before returning from the interrupt."
  pub intr_disable_lem : (i : Intr) → intr_disable i ≡ record i { on = false }
  pub intr_set_level_lem : (b : Bool) (i : Intr) → intr_set_level b i ≡ record i { on = b }
  pub intr_yield_on_return_lem :
      (i : Intr) → intr_yield_on_return i ≡ record i { yield_on_return = true }
