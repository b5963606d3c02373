-- ===== src/Kernel/Traps/Overflow.antt =====
-- Page faults of `page_fault_handler` with the stack pointer near the end of the exception stack.
use sistemas_operativos.Base.{ℕ, ◌+◌, ◌-◌, ◌%◌, ◌≤◌, ◌<◌, true, false, none, ◌≡◌, ◌≢◌, ◌∙◌, arith}
use sistemas_operativos.Sched.State.{null}
use sistemas_operativos.Kernel.Traps.Entered.{at_trap, at_trap-AtTrap, trap-dispatches, then-faults}
use sistemas_operativos.Vm.State.{Vm, ok, pgsize}
use sistemas_operativos.Vm.Access.{user_mem_check}
use sistemas_operativos.Kernel.State.{Trapframe, Kernel, returns, faults, K, curenv_of, env_of}
use sistemas_operativos.Kernel.Memory.{user_mem_assert}
use sistemas_operativos.Kernel.Traps.{
  Frame, load_frame, exstk, on_exstk, utf_size, make_room, call_upcall, page_fault_handler, trap,
  trap_dispatch, is_dying, tf_trapno, t_pgflt, saved, resume,
}

low_on_exstk : (esp : ℕ) → exstk ≤ esp → esp < exstk + 56 → on_exstk esp ≡ true
low_on_exstk esp low high = ground arith

below_exstk : (esp : ℕ) → esp < exstk + 56 → on_exstk (esp - 4 - utf_size) ≡ false
below_exstk esp high = ground arith

module _ (cpu fault_va : ℕ) (p : Frame) (k : Kernel) (s : Vm)
    (checked : user_mem_check (k.rest (curenv_of k)).env_pgdir exstk pgsize 6 k.vm ≡ ok none s)
    (low : exstk ≤ (load_frame p k).tf_esp) (high : (load_frame p k).tf_esp < exstk + 56) where
  passes : user_mem_assert cpu (curenv_of k) exstk pgsize 6 k ≡ returns tt (record k { vm = s })
  unfolding user_mem_assert
  passes = ground (arith, checked)

  abbrev pgdir : ℕ
  pgdir = (k.rest (curenv_of k)).env_pgdir

  abbrev esp : ℕ
  esp = (load_frame p k).tf_esp

  call_upcall-crashes : call_upcall cpu fault_va p k ≡ faults
  unfolding call_upcall make_room
  call_upcall-crashes =
      let on = low_on_exstk esp low high in
      let off = below_exstk esp high in ground (arith, passes, on, off)

module _ (cpu : ℕ) (cgetc : K ℕ) (fault_va : ℕ) (p : Frame) (k : Kernel)
    (page_fault : tf_trapno (load_frame p k) ≡ t_pgflt) (user : (load_frame p k).tf_cs % 4 ≡ 3)
    (upcall : (k.rest (curenv_of k)).env_pgfault_upcall ≢ 0) where
  dispatches-upcall : trap_dispatch cpu cgetc fault_va p k ≡ call_upcall cpu fault_va p k
  unfolding trap_dispatch page_fault_handler
  dispatches-upcall = ground (arith)

-- A page fault of a user environment that has an upcall and a writable exception stack, with its stack
-- pointer in the last 56 bytes of that stack, makes the kernel panic or fault, whatever else the
-- frame holds: the environment is not destroyed.
pub trap-crashes :
    (cpu : ℕ) (cgetc : K ℕ) (t it fault_va : ℕ) (tf : Trapframe) (k : Kernel) (s : Vm)
    → curenv_of k ≢ null
    → is_dying (env_of (curenv_of k) k).env_status ≡ false
    → (k.rest (curenv_of k)).env_pgfault_upcall ≢ 0
    → user_mem_check (k.rest (curenv_of k)).env_pgdir exstk pgsize 6 k.vm ≡ ok none s
    → tf.tf_cs % 4 ≡ 3
    → tf_trapno tf ≡ t_pgflt
    → exstk ≤ tf.tf_esp
    → tf.tf_esp < exstk + 56
    → trap cpu cgetc t it fault_va tf k ≡ faults
trap-crashes cpu cgetc t it fault_va tf k s some_env alive upcall checked user page_fault low high =
    let k₁ = at_trap t it tf k in
    let p = saved (curenv_of k) in
    let found = at_trap-AtTrap t it tf k in
    let crash =
      dispatches-upcall cpu cgetc fault_va p k₁ (rw (found.frame) page_fault)
        (rw (found.frame) user) (rw (found.current, found.rest) upcall)
      ∙ call_upcall-crashes cpu fault_va p k₁ s
          (rw (found.current, found.rest, found.memory) checked) (rw (found.frame) low)
          (rw (found.frame) high) in
    trap-dispatches cpu cgetc t it fault_va tf k some_env alive user
    ∙ then-faults (trap_dispatch cpu cgetc fault_va p) (λ _. resume cpu) k₁ crash
