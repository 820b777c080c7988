-- ===== src/Elem.antt =====
-- The `elem` member of threads/thread.h: one pair of links, shared by the ready lists and the
-- waiter lists. Adding an element that some list holds already would break that list.
use os_pintos.Base.{Bool, true, false, not, List}
use os_pintos.Platform.{Less, Platform}
use os_pintos.Kernel.{Ptr, Kernel, set_thread, M, ◌>>=◌, ◌>>◌, gets, modify, require, pure}

abbrev pub set_linked : Bool → Ptr → Kernel → Kernel
set_linked b t k = set_thread t (record (k.threads t) { elem_linked = b }) k

-- What the caller of `list_insert` has to see to: `elem` is on no list. Then it is on one.
abbrev pub link_elem : Ptr → M (Unit {0})
link_elem t = do
  linked ← gets (λ k. (k.threads t).elem_linked)
  require (not linked)
  modify (set_linked true t)

module _ ⦃os : Platform⦄ where
  -- list_push_back (list, &t->elem)
  abbrev pub push_back_elem : List Ptr → Ptr → M (List Ptr)
  push_back_elem list t = do link_elem t; pure (os.list_push_back list t)

  -- list_insert_ordered (list, &t->elem, less, NULL)
  abbrev pub insert_elem : List Ptr → Ptr → Less → M (List Ptr)
  insert_elem list t less = do link_elem t; pure (os.list_insert_ordered list t less)

  -- list_entry (list_pop_front (list), struct thread, elem)
  abbrev pub pop_elem : List Ptr → M (Ptr × List Ptr)
  pop_elem list = do
    let popped = os.list_pop_front list
    modify (set_linked false popped.0)
    pure popped
