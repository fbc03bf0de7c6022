-- ===== src/Ert/Context/Layout.antt =====
-- Where `makecontext` of client/wisp-ert/posix/ucontext.c puts the arguments.
use mathlib.Core.Path.{subst}
use wisp_ert.Common.{
  ℕ, suc, ◌+◌, ◌-◌, ◌*◌, ◌<◌, ◌≤◌, ◌≡◌, refl, ap, ap₂, ◌∙◌, ◌++◌, length-append, List, [], ◌∷◌,
  arith, length,
}
use wisp_ert.Ert.Context.{Mcontext, Stack, Building, down, push, pass_arg, pass_args, makecontext}

-- the words from an address down
abbrev pub Stands : Stack → ℕ → List ℕ → Type 0
Stands stack top [] = Unit
Stands stack top (x ∷ xs) = (stack top ≡ x) × Stands stack (top - 4) xs

-- arguments that go to the stack, from a stack pointer down
pushed : List ℕ → Building → Building
pushed [] b = b
pushed (x ∷ xs) b = pushed xs (push x b)

pass_args-pushed :
    (i : ℕ) (args : List ℕ) (b : Building)
    → pass_args (suc (suc (suc (suc i)))) args b ≡ pushed args b
unfolding pass_args pass_arg pushed
pass_args-pushed i [] b = refl
pass_args-pushed i (x ∷ args) b = pass_args-pushed (suc i) args (push x b)

pushed-sp :
    (args : List ℕ) (b : Building)
    → 4 * length args ≤ b.sp
    → b.sp < 4294967296
    → ((pushed args b).sp ≡ b.sp - 4 * length args) × ((pushed args b).mctx ≡ b.mctx)
unfolding pushed push
pushed-sp [] b h small = (omega arith, refl)
pushed-sp (x ∷ args) b h small =
    let r = pushed-sp args (push x b) (omega arith) (omega arith) in (omega (arith, r.0), r.1)

-- what stands above the stack pointer is not touched
pushed-above :
    (args : List ℕ) (b : Building) (a : ℕ)
    → 4 * length args ≤ b.sp
    → b.sp < 4294967296
    → b.sp < a
    → (pushed args b).stack a ≡ b.stack a
unfolding pushed push
pushed-above [] b a h small above = refl
pushed-above (x ∷ args) b a h small above =
    pushed-above args (push x b) a (omega arith) (omega arith) (omega arith) ∙ ground arith

pushed-Stands :
    (args : List ℕ) (b : Building)
    → 4 * length args ≤ b.sp
    → b.sp < 4294967296
    → Stands (pushed args b).stack b.sp args
unfolding pushed push
pushed-Stands [] b h small = tt
pushed-Stands (x ∷ args) b h small =
    let e : down b.sp ≡ b.sp - 4 = omega arith in
    let below = pushed-Stands args (push x b) (omega arith) (omega arith) in
    (
      pushed-above args (push x b) b.sp (omega arith) (omega arith) (omega arith) ∙ ground arith,
      subst (λ at. Stands (pushed args (push x b)).stack at args) e below,
    )

pushed-last :
    (args : List ℕ) (x : ℕ) (b : Building) → push x (pushed args b) ≡ pushed (args ++ (x ∷ [])) b
unfolding pushed
pushed-last [] x b = refl
pushed-last (y ∷ args) x b = pushed-last args x (push y b)

-- the context before the stack arguments
abbrev passed_four : (a b c d top : ℕ) → Mcontext → Stack → Building
passed_four a b c d top mctx stack = record {
  mctx = record mctx { r12 = a; r13 = b; r14 = c; r15 = d };
  sp = top;
  stack = stack;
}

-- the context and the stack once all has been pushed
finish : (func : ℕ) → Building → Mcontext × Stack
finish func b = (record (b.mctx) { sp = b.sp; pc = func }, b.stack)

makecontext-finish :
    (ss_sp ss_size func a b c d : ℕ) (rest : List ℕ) (mctx : Mcontext) (stack : Stack)
    → makecontext ss_sp ss_size func (a ∷ b ∷ c ∷ d ∷ rest) mctx stack
      ≡ finish func
          (pushed (rest ++ (0 ∷ [])) (passed_four a b c d (ss_sp + ss_size - 4) mctx stack))
unfolding makecontext pass_args pass_arg finish
makecontext-finish ss_sp ss_size func a b c d rest mctx stack =
    let p : Building = passed_four a b c d (ss_sp + ss_size - 4) mctx stack in
    ap (finish func) (ap (push 0) (pass_args-pushed 0 rest p) ∙ pushed-last rest 0 p)

-- `makecontext` for a function with four arguments or more: the registers R12 to R15 hold the first four,
-- the others stand one below the other from the top of the stack, the return address 0 stands below
-- them, and the program counter is the function; the stack pointer is not at the return address but
-- one word below it, and no word above the top has changed.
pub makecontext-Stands :
    (ss_sp ss_size func a b c d above : ℕ) (rest : List ℕ) (mctx : Mcontext) (stack : Stack)
    → 4 * (length rest + 2) ≤ ss_sp + ss_size
    → ss_sp + ss_size < 4294967296
    → ss_sp + ss_size - 4 < above
    → ((makecontext ss_sp ss_size func (a ∷ b ∷ c ∷ d ∷ rest) mctx stack).0 ≡ record mctx {
      r12 = a;
      r13 = b;
      r14 = c;
      r15 = d;
      sp = ss_sp + ss_size - 4 * (length rest + 2);
      pc = func;
    })
      × Stands
          (makecontext ss_sp ss_size func (a ∷ b ∷ c ∷ d ∷ rest) mctx stack).1
          (ss_sp + ss_size - 4)
          (rest ++ (0 ∷ []))
      × ((makecontext ss_sp ss_size func (a ∷ b ∷ c ∷ d ∷ rest) mctx stack).1 above ≡ stack above)
unfolding finish
makecontext-Stands ss_sp ss_size func a b c d above rest mctx stack h small over =
    let p : Building = passed_four a b c d (ss_sp + ss_size - 4) mctx stack in
    let n : length (rest ++ (0 ∷ [])) ≡ length rest + 1 = length-append rest (0 ∷ []) in
    let s = pushed-sp (rest ++ (0 ∷ [])) p (omega (arith, n)) (omega arith) in
    let k : (pushed (rest ++ (0 ∷ [])) p).sp ≡ ss_sp + ss_size - 4 * (length rest + 2) =
      omega (arith, n, s.0) in
    rw (makecontext-finish ss_sp ss_size func a b c d rest mctx stack) (
      ap₂ {A = Mcontext} (λ m at. record m { sp = at; pc = func }) s.1 k,
      pushed-Stands (rest ++ (0 ∷ [])) p (omega (arith, n)) (omega arith),
      pushed-above (rest ++ (0 ∷ [])) p above (omega (arith, n)) (omega arith) over,
    )
