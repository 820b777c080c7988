-- ===== src/Kernel/Stores.antt =====
-- Reading and writing the structures and the variables.
use os_pintos.Base.{ℕ, ◌==◌, if◌then◌else◌, ◌≡◌, arith, List, fun_ext}
use os_pintos.Kernel.State.{Ptr, Thread, Semaphore, Lock, Condition, Kernel}

-- A store with a new content at one address.
abbrev pub update {ℓ} : {A : Type ℓ} → (ℕ → A) → ℕ → A → ℕ → A
update s p a q = if q == p then a else s q

abbrev pub set_thread : Ptr → Thread → Kernel → Kernel
set_thread t th k = record k { threads = update k.threads t th }

abbrev pub set_semaphore : Ptr → Semaphore → Kernel → Kernel
set_semaphore s sema k = record k { semaphores = update k.semaphores s sema }

abbrev pub set_lock : Ptr → Lock → Kernel → Kernel
set_lock l lock k = record k { locks = update k.locks l lock }

abbrev pub set_condition : Ptr → Condition → Kernel → Kernel
set_condition c cond k = record k { conditions = update k.conditions c cond }

abbrev pub set_queue : ℕ → List Ptr → Kernel → Kernel
set_queue i q k = record k { mlfqs_list = update k.mlfqs_list i q }

pub update_self {ℓ} : {A : Type ℓ} (s : ℕ → A) (p : ℕ) (a : A) → update s p a p ≡ a
update_self s p a = ground arith

pub update-update {ℓ} :
    {A : Type ℓ} (s : ℕ → A) (p : ℕ) (a b : A) → update (update s p a) p b ≡ update s p b
update-update s p a b = fun_ext λ q. ground arith

pub update_id {ℓ} : {A : Type ℓ} (s : ℕ → A) (p : ℕ) → update s p (s p) ≡ s
update_id s p = fun_ext λ q. ground arith
