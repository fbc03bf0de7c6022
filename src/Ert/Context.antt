-- ===== src/Ert/Context.antt =====
-- `makecontext` of client/wisp-ert/posix/ucontext.c. The stack is a memory of 32-bit words by the address
-- of their first byte; saving and restoring registers is assembly and not a part of the model.
pub mod Layout
use wisp_ert.Common.{ℕ, zero, suc, ◌+◌, ◌-◌, ◌%◌, ◌==◌, if◌then◌else◌, List, [], ◌∷◌}

-- `mcontext_t`
pub record Mcontext : Type 0 where
  pub pc : ℕ
  pub sp : ℕ
  pub r4 : ℕ
  pub r5 : ℕ
  pub r6 : ℕ
  pub r7 : ℕ
  pub r8 : ℕ
  pub r9 : ℕ
  pub r10 : ℕ
  pub r11 : ℕ
  pub r12 : ℕ
  pub r13 : ℕ
  pub r14 : ℕ
  pub r15 : ℕ

abbrev pub Stack : Type 0
Stack = ℕ → ℕ

-- the machine context, the stack pointer of the loop, and the stack
pub record Building : Type 0 where
  pub mctx : Mcontext
  pub sp : ℕ
  pub stack : Stack

-- `sp--` on a `uint32_t*`, in 32 bits
abbrev pub down : ℕ → ℕ
down sp = (sp + 4294967296 - 4) % 4294967296

-- `*sp = word; sp--;`
unfoldable pub push : ℕ → Building → Building
push word b = record b { stack = λ a. if a == b.sp then word else b.stack a; sp = down b.sp }

-- the `switch (i)`
unfoldable pub pass_arg : (i arg : ℕ) → Building → Building
unfolding push
pass_arg zero arg b = record b { mctx = record (b.mctx) { r12 = arg } }
pass_arg (suc zero) arg b = record b { mctx = record (b.mctx) { r13 = arg } }
pass_arg (suc (suc zero)) arg b = record b { mctx = record (b.mctx) { r14 = arg } }
pass_arg (suc (suc (suc zero))) arg b = record b { mctx = record (b.mctx) { r15 = arg } }
pass_arg (suc (suc (suc (suc _)))) arg b = push arg b

-- "Copy arguments to registers or to stack", from the argument `i` on
unfoldable pub pass_args : (i : ℕ) → List ℕ → Building → Building
unfolding pass_arg
pass_args i [] b = b
pass_args i (arg ∷ args) b = pass_args (suc i) args (pass_arg i arg b)

-- `makecontext`, for the function and the arguments
unfoldable pub makecontext : (ss_sp ss_size func : ℕ) → List ℕ → Mcontext → Stack → Mcontext × Stack
unfolding pass_args push
makecontext ss_sp ss_size func args mctx stack =
    let passed =
      pass_args 0 args (record { mctx = mctx; sp = ss_sp + ss_size - 4; stack = stack }) in
    let called = push 0 passed in (record (called.mctx) { sp = called.sp; pc = func }, called.stack)
