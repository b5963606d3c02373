-- ===== src/Kernel/Traps/Tests.antt =====
-- Traps of the demonstration kernel, with page 21 as the exception stack of its first environment.
use sistemas_operativos.Base.{ℕ, ◌+◌, ◌*◌, ◌==◌, ◌&&◌, ◌≡◌, refl, none, arith, if◌then◌else◌}
use sistemas_operativos.Sched.Priority.{mlfq_count_time}
use sistemas_operativos.Vm.State.{Vm, ok, pgsize, update}
use sistemas_operativos.Vm.Demo.{demo_word, demo_vm}
use sistemas_operativos.Vm.Access.{user_mem_check, check_pages}
use sistemas_operativos.Vm.Tables.{make_table, find_pte, pgdir_walk}
use sistemas_operativos.Vm.Store.{store_words, store_byte}
use sistemas_operativos.Kernel.Demo.{demo}
use sistemas_operativos.Kernel.State.{
  Trapframe, EnvRest, Kernel, Result, leaves, faults, fail, e_inval, K,
}
use sistemas_operativos.Kernel.Memory.{user_mem_assert}
use sistemas_operativos.Kernel.Envs.{initial_tf}
use sistemas_operativos.Kernel.Traps.{
  exstk, t_pgflt, trap, trap_dispatch, page_fault_handler, call_upcall, make_room, enter,
  enter_user, run_env,
}
use sistemas_operativos.Kernel.Traps.Overflow.{trap-crashes}

abbrev stack_vm : Vm
stack_vm = record demo_vm {
  words = λ p k.
      if (p == 2) && (k == 954)
      then 6 * 4096 + 7
      else if (p == 6) && (k == 1023)
      then 21 * 4096 + 7
      else demo_word p k;
}

abbrev stack_rest : EnvRest
stack_rest = record (demo.rest 1) { env_pgfault_upcall = 0x800020 }

abbrev stack_demo : Kernel
stack_demo = record demo { vm = stack_vm; rest = update demo.rest 1 stack_rest }

abbrev frame_of : (trapno esp : ℕ) → Trapframe
frame_of trapno esp = record initial_tf {
  tf_esp = esp;
  tf_rest = λ i. if i == 10 then trapno else 0;
}

-- `cons_getc` is not called.
abbrev no_input : K ℕ
no_input = fail e_inval

stack_is_checked : user_mem_check 2 exstk pgsize 6 stack_vm ≡ ok none stack_vm
unfolding user_mem_check check_pages pgdir_walk make_table find_pte
stack_is_checked = refl

trap-crashes_example : trap 0 no_input 0 0 0x1234 (frame_of t_pgflt (exstk + 8)) stack_demo ≡ faults
trap-crashes_example =
    trap-crashes 0 no_input 0 0 0x1234 (frame_of t_pgflt (exstk + 8)) stack_demo stack_vm
      (omega arith) refl (omega arith) stack_is_checked refl refl (omega arith) (omega arith)

-- From the normal stack the upcall runs, with its frame at 0xeebfffcb.
abbrev esp_after : Result (Unit {0}) → ℕ
esp_after (leaves o k) = (k.rest 1).env_tf.tf_esp
esp_after _ = 0

upcall_runs :
    esp_after (trap 0 no_input 0 0 0x1234 (frame_of t_pgflt 0xeebfdf00) stack_demo) ≡ 0xeebfffcb
unfolding trap trap_dispatch page_fault_handler call_upcall make_room enter enter_user run_env
    user_mem_assert user_mem_check check_pages pgdir_walk make_table find_pte store_words store_byte
    mlfq_count_time
upcall_runs = refl
