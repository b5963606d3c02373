-- ===== src/Kernel/Ipc/Deliver.antt =====
-- What a message without a page leaves: `sys_ipc_try_send` and `sys_ipc_recv` of kern/syscall.c.
use sistemas_operativos.Base.{ℕ, ◌+◌, ◌≤◌, true, false, ◌≡◌, ◌≢◌, refl, ◌∙◌, arith, ==_refl, ne→==}
use sistemas_operativos.Sched.State.{Ptr, env_runnable}
use sistemas_operativos.Vm.State.{utop}
use sistemas_operativos.Kernel.State.{
  Kernel, e_inval, e_ipc_not_recv, returns, fails, env_of, set_rest, curenv_of,
}
use sistemas_operativos.Kernel.Envs.{is_free, envx, envid2env}
use sistemas_operativos.Kernel.Envs.Lookup.{envid2env-live}
use sistemas_operativos.Kernel.Ipc.{deliver, set_perm, sys_ipc_try_send, sys_ipc_recv}
use sistemas_operativos.Kernel.Syscalls.{bad_va}

-- What the receiver `dst` holds after a message from the current environment.
pub record Received (dst : Ptr) (value : ℕ) (k k' : Kernel) : Type 0 where
  pub from : (k'.rest dst).env_ipc_from ≡ (env_of (curenv_of k) k).env_id
  pub got : (k'.rest dst).env_ipc_value ≡ value
  pub perm : (k'.rest dst).env_ipc_perm ≡ 0
  pub answer : (k'.rest dst).env_tf.reg_eax ≡ 0
  pub status : (env_of dst k').env_status ≡ env_runnable
  pub others : (e : Ptr) → e ≢ dst → (k'.rest e ≡ k.rest e) × (env_of e k' ≡ env_of e k)

abbrev sent : (dst : Ptr) → (value : ℕ) → Kernel → Kernel
sent dst value k = deliver dst value (set_perm dst 0 k)

module _ (dst : Ptr) (value : ℕ) (k : Kernel) where
  sent-Received : Received dst value k (sent dst value k)
  unfolding deliver
  sent-Received = record {
    from = rw (==_refl dst) refl;
    got = rw (==_refl dst) refl;
    perm = rw (==_refl dst) refl;
    answer = rw (==_refl dst) refl;
    status = rw (==_refl dst) refl;
    others = λ e ne. (rw (ne→== e dst ne) refl, rw (ne→== e dst ne) refl);
  }

  sent-closed : ((sent dst value k).rest dst).env_ipc_recving ≡ false
  unfolding deliver
  sent-closed = rw (==_refl dst) refl

  sent-id : (env_of dst (sent dst value k)).env_id ≡ (env_of dst k).env_id
  unfolding deliver
  sent-id = rw (==_refl dst) refl

  sent-alive : is_free (env_of dst (sent dst value k)).env_status ≡ false
  unfolding deliver
  sent-alive = rw (==_refl dst) refl

module _ (envid value srcva perm : ℕ) (dst : Ptr) (k : Kernel)
    (found : envid2env envid false k ≡ returns dst k) where
  send-closed :
      (k.rest dst).env_ipc_recving ≡ false
      → sys_ipc_try_send envid value srcva perm k ≡ fails e_ipc_not_recv k
  unfolding sys_ipc_try_send
  send-closed closed = ground (arith, found, closed)

  send-open :
      (k.rest dst).env_ipc_recving ≡ true
      → utop ≤ srcva
      → sys_ipc_try_send envid value srcva perm k ≡ returns tt (sent dst value k)
  unfolding sys_ipc_try_send
  send-open opened above = ground (arith, found, opened)

-- A message without a page to a used environment that waits for one succeeds; the receiver has the
-- sender's id, the value, no page, 0 as its answer, and is RUNNABLE, no other environment changes, and any
-- further message to it fails with -E_IPC_NOT_RECV.
pub sys_ipc_try_send-Received :
    (envid value srcva perm : ℕ) (dst : Ptr) (k : Kernel)
    → envid ≢ 0
    → envx envid + 1 ≡ dst
    → (env_of dst k).env_id ≡ envid
    → is_free (env_of dst k).env_status ≡ false
    → (k.rest dst).env_ipc_recving ≡ true
    → utop ≤ srcva
    → (k' : Kernel) × (sys_ipc_try_send envid value srcva perm k ≡ returns tt k')
      × Received dst value k k'
      × ((value' srcva' perm' : ℕ)
          → sys_ipc_try_send envid value' srcva' perm' k' ≡ fails e_ipc_not_recv k')
sys_ipc_try_send-Received envid value srcva perm dst k nonzero here same alive opened above = (
  sent dst value k,
  send-open envid value srcva perm dst k (envid2env-live envid dst k nonzero here same alive) opened
      above,
  sent-Received dst value k,
  λ value' srcva' perm'.
      send-closed envid value' srcva' perm' dst (sent dst value k)
        (envid2env-live envid dst (sent dst value k) nonzero here (sent-id dst value k ∙ same)
          (sent-alive dst value k))
        (sent-closed dst value k),
)

-- The state after the first line of `sys_ipc_recv`.
abbrev waiting : Kernel → Kernel
waiting k = set_rest (curenv_of k) (record (k.rest (curenv_of k)) { env_ipc_recving = true }) k

-- Where `sys_ipc_recv` fails since `dstva` is not an aligned address below UTOP, the caller counts as
-- waiting all the same: a message to it succeeds and makes it RUNNABLE.
sys_ipc_recv-stays_open :
    (cpu dstva value : ℕ) (k : Kernel)
    → bad_va dstva ≡ true
    → (env_of (curenv_of k) k).env_id ≢ 0
    → envx (env_of (curenv_of k) k).env_id + 1 ≡ curenv_of k
    → is_free (env_of (curenv_of k) k).env_status ≡ false
    → (k₁ k₂ : Kernel) × (sys_ipc_recv cpu dstva k ≡ fails e_inval k₁)
      × (sys_ipc_try_send (env_of (curenv_of k) k).env_id value utop 0 k₁ ≡ returns tt k₂)
      × ((env_of (curenv_of k) k₂).env_status ≡ env_runnable)
unfolding sys_ipc_recv
sys_ipc_recv-stays_open cpu dstva value k bad nonzero here alive = (
  waiting k,
  sent (curenv_of k) value (waiting k),
  rw (bad) refl,
  send-open (env_of (curenv_of k) k).env_id value utop 0 (curenv_of k) (waiting k)
      (envid2env-live _ (curenv_of k) (waiting k) nonzero here refl alive)
      (rw (==_refl (curenv_of k)) refl) (omega arith),
  (sent-Received (curenv_of k) value (waiting k)).status,
)
