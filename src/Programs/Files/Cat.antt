-- ===== src/Programs/Files/Cat.antt =====
-- What the program syscalls/ece391cat.c prints.
use loli_os.Prelude.{
  ℕ, zero, suc, ◌+◌, ◌-◌, ◌*◌, ◌≤◌, min, ◌≡◌, refl, sym, ap, ap₂, subst, ◌∙◌, true, false, Option,
  some, List, [], ◌++◌, arith, ℕ_discrete, ◌==◌, ℤ, pos,
}
use loli_os.Memory.Bytes.{Mem, bytes, bytes-append}
use loli_os.Programs.Calls.{Calls, is_minus_one, Copying}
use loli_os.Programs.Files.{cat_loop, cat_opened, cat_main}

module _ {S O : Type 0} (calls : Calls S) (fd : ℤ) (buf : ℕ) (Ready : S → Type 0) (content : Mem)
    (size : ℕ) (at : S → ℕ) (Shown : S → O → Type 0) (print : O → List ℕ → O)
    (Fine : List ℕ → Type 0)
    (copying : Copying S O calls fd buf 1024 Ready content size at Shown print Fine)
    (print-append : (o : O) (xs ys : List ℕ) → print (print o xs) ys ≡ print o (xs ++ ys))
    (print_none : (o : O) → print o [] ≡ o)
    (fine : (a n : ℕ) → a + n ≤ size → Fine (bytes content a n)) where
  joined :
      (o : O) (a c b : ℕ)
      → a ≤ size
      → c ≤ size - a
      → b ≡ a + c
      → print (print o (bytes content a c)) (bytes content b (size - b))
        ≡ print o (bytes content a (size - a))
  joined o a c b h hc f =
      let total : c + (size - (a + c)) ≡ size - a = omega (arith, h, hc) in
      print-append o (bytes content a c) (bytes content b (size - b))
      ∙ ap (λ d. print o (bytes content a c ++ bytes content d (size - d))) f
      ∙ ap (print o) (bytes-append content a c (size - (a + c)) ∙ ap (bytes content a) total)

  empty_rest : (o : O) (a n : ℕ) → n ≡ 0 → print o (bytes content a n) ≡ o
  unfolding bytes
  empty_rest o a n e = ap (λ k. print o (bytes content a k)) e ∙ print_none o

  -- The loop prints what is left of the file, once there are rounds enough.
  Prints : S → O → Option (ℕ × S) → Type 0
  Prints s o result =
      (s' : S) × (result ≡ some (0, s')) × Shown s' (print o (bytes content (at s) (size - at s)))

  cat_loop-Prints :
      (n : ℕ) (s : S) (o : O)
      → Ready s
      → Shown s o
      → at s ≤ size
      → size - at s + 1024 ≤ 1024 * n
      → Prints s o (cat_loop calls fd buf n s)
  unfolding cat_loop Prints
  cat_loop-Prints zero s o ready shown h enough = absurd (omega (arith, enough))
  cat_loop-Prints (suc n) s o ready shown h enough =
      let c = min 1024 (size - at s) in
      let (s1, got, same, at1, shown1, ready1) = copying.got s o ready shown h in
      elim (ℕ_discrete c 0) [
        | yes nothing_left ↦
            let ends : (c == 0) ≡ true = ground (arith, nothing_left) in
            let none_left : size - at s ≡ 0 = omega (arith, nothing_left) in
            (
              s1,
              rw (got, ends) refl,
              subst (Shown s1) (sym (empty_rest o (at s) (size - at s) none_left)) shown1,
            )
        | no some_left ↦
            let goes_on : (c == 0) ≡ false = ground (arith, some_left) in
            let (s2, wrote, at2, shown2, ready2) =
              copying.written s1 o c ready1 shown1 (omega arith)
                (subst Fine (sym same) (fine (at s) c (omega (arith, h)))) in
            let at_next : at s2 ≡ at s + c = at2 ∙ at1 in
            let so_far : Shown s2 (print o (bytes content (at s) c)) =
              subst (λ xs. Shown s2 (print o xs)) same shown2 in
            let (s3, done, shown3) =
              cat_loop-Prints n s2 (print o (bytes content (at s) c)) ready2 so_far
                (omega (arith, at_next)) (omega (arith, at_next, enough, some_left)) in
            (
              s3,
              rw (got, goes_on, wrote) done,
              subst (Shown s3) (joined o (at s) c (at s2) h (omega arith) at_next) shown3,
            )
      ]

  -- When its arguments name a file that opens at its start, cat prints the file, whatever its size, and
  -- ends with the status 0, after at most one read for each 1024 bytes and one more.
  pub cat_main-prints :
      (n : ℕ) (s s1 s2 : S) (o : O)
      → calls.getargs s buf (pos 1024) ≡ some (pos 0, s1)
      → calls.open_file s1 buf ≡ some (fd, s2)
      → is_minus_one fd ≡ false
      → Ready s2
      → Shown s2 o
      → at s2 ≡ 0
      → size + 1024 ≤ 1024 * n
      → (s' : S) × (cat_main calls n buf s ≡ some (0, s'))
        × Shown s' (print o (bytes content 0 size))
  unfolding cat_main cat_opened Prints
  cat_main-prints n s s1 s2 o args opened fd_ok ready shown start enough =
      let (s', done, printed) =
        cat_loop-Prints n s2 o ready shown (omega (arith, start)) (omega (arith, start, enough)) in
      (
        s',
        rw (args, opened, fd_ok) done,
        subst (λ xs. Shown s' (print o xs)) (ap₂ (bytes content) start (omega (arith, start)))
            printed,
      )
