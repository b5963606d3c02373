-- ===== src/Kernel/Traps/Entered.antt =====
-- How `trap` comes to dispatch a trap from user mode.
use sistemas_operativos.Base.{ℕ, ◌%◌, false, ◌≡◌, ◌≢◌, refl, ap, arith, ==_refl}
use sistemas_operativos.Sched.State.{null}
use sistemas_operativos.Sched.Priority.{mlfq_count_time}
use sistemas_operativos.Sched.Run.{Outcome}
use sistemas_operativos.Kernel.State.{
  Trapframe, EnvRest, Kernel, Result, returns, fails, leaves, faults, K, ◌>>=◌, env_of, set_rest,
  curenv_of,
}
use sistemas_operativos.Kernel.Traps.{
  load_frame, saved, trap, trap_dispatch, enter, enter_user, resume, count_time, is_dying,
}

-- The state in which a trap from user mode is dispatched.
unfoldable pub at_trap : (t it : ℕ) → Trapframe → Kernel → Kernel
at_trap t it tf k =
    let k₁ = count_time t it k in
    set_rest (curenv_of k₁) (record (k₁.rest (curenv_of k₁)) { env_tf = tf }) k₁

count_time-curenv : (t it : ℕ) (k : Kernel) → curenv_of (count_time t it k) ≡ curenv_of k
unfolding mlfq_count_time
count_time-curenv t it k = ground arith

-- What the dispatch finds: the saved frame, and the rest as it was.
pub record AtTrap (tf : Trapframe) (k k' : Kernel) : Type 0 where
  pub current : curenv_of k' ≡ curenv_of k
  pub memory : k'.vm ≡ k.vm
  pub frame : load_frame (saved (curenv_of k)) k' ≡ tf
  pub rest : k'.rest (curenv_of k) ≡ record (k.rest (curenv_of k)) { env_tf = tf }

pub at_trap-AtTrap : (t it : ℕ) (tf : Trapframe) (k : Kernel) → AtTrap tf k (at_trap t it tf k)
unfolding at_trap
at_trap-AtTrap t it tf k =
    let same = count_time-curenv t it k in
    let own : (at_trap t it tf k).rest (curenv_of k)
        ≡ record (k.rest (curenv_of k)) { env_tf = tf } =
      rw (same, ==_refl (curenv_of k)) refl in
    record { current = same; memory = refl; frame = ap (λ (r : EnvRest). r.env_tf) own; rest = own }

count_time-alive :
    (t it : ℕ) (k : Kernel)
    → is_dying (env_of (curenv_of k) k).env_status ≡ false
    → is_dying (env_of (curenv_of k) (count_time t it k)).env_status ≡ false
unfolding mlfq_count_time
count_time-alive t it k alive = ground arith

-- What follows a call, by how the call ends.
module _ {A B : Type 0} (m : K A) (f : A → K B) (k : Kernel) where
  abbrev after : Result A → Result B
  after r = elim r [
    | returns a k' ↦ f a k'
    | fails e k' ↦ fails e k'
    | leaves o k' ↦ leaves o k'
    | faults ↦ faults
  ]

  then-returns : (k' : Kernel) (a : A) → m k ≡ returns a k' → (m >>= f) k ≡ f a k'
  then-returns k' a e = ap after e

  pub then-leaves : (o : Outcome) (k' : Kernel) → m k ≡ leaves o k' → (m >>= f) k ≡ leaves o k'
  then-leaves o k' e = ap after e

  pub then-faults : m k ≡ faults → (m >>= f) k ≡ faults
  then-faults e = ap after e

module _ (cpu : ℕ) (cgetc : K ℕ) (t it fault_va : ℕ) (tf : Trapframe) (k : Kernel)
    (some_env : curenv_of k ≢ null) (alive : is_dying (env_of (curenv_of k) k).env_status ≡ false)
    (user : tf.tf_cs % 4 ≡ 3) where
  entered : enter cpu tf (count_time t it k) ≡ returns (saved (curenv_of k)) (at_trap t it tf k)
  unfolding enter enter_user at_trap
  entered =
      let same = count_time-curenv t it k in
      let still = count_time-alive t it k alive in ground (arith, same, still)

  -- A trap from user mode saves the frame and is dispatched on it.
  pub trap-dispatches :
      trap cpu cgetc t it fault_va tf k
      ≡ ◌>>=◌
          (trap_dispatch cpu cgetc fault_va (saved (curenv_of k)))
          (λ _. resume cpu)
          (at_trap t it tf k)
  unfolding trap
  trap-dispatches =
      then-returns (enter cpu tf)
        (λ p. ◌>>=◌ (trap_dispatch cpu cgetc fault_va p) (λ _. resume cpu)) (count_time t it k)
        (at_trap t it tf k) (saved (curenv_of k)) entered
