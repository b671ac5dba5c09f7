-- ===== src/Process/Command/Parsing.antt =====
-- What process_parse_cmd of student-distrib/process.c makes of a command line.
use loli_os.Prelude.{
  ℕ, zero, suc, ◌+◌, ◌^◌, ◌≤◌, ◌<◌, ◌≡◌, refl, ap, subst, ◌∙◌, ◌≢◌, ◌⊎◌, inl, inr, true, false,
  ◌||◌, Option, none, some, List, [], ◌∷◌, arith, ℕ_discrete, ◌==◌, Option-cases,
}
use loli_os.Memory.Bytes.{Mem, bytes}
use loli_os.FileSystem.{Image}
use loli_os.Strings.{string_rounds}
use loli_os.Strings.Compare.{EndsAt}
use loli_os.Process.Command.{
  skip_spaces, filename_from, args_from, find_executable, Command, invalid, program, parse_rest,
  parse_with, parse_cmd,
}

-- From an address on, n spaces, and then another character.
pub record Spaces (m : Mem) (a n : ℕ) : Type 0 where
  pub space : (i : ℕ) → i < n → m (a + i) ≡ 32
  pub stop : m (a + n) ≢ 32

-- From an address on, n characters that are no spaces, and then a space or the NUL.
pub record Word (m : Mem) (a n : ℕ) : Type 0 where
  pub no_space : (i : ℕ) → i < n → m (a + i) ≢ 32
  pub no_end : (i : ℕ) → i < n → m (a + i) ≢ 0
  pub stop : (m (a + n) ≡ 32) ⊎ (m (a + n) ≡ 0)

skip_spaces_lem :
    (m : Mem) (c a n i r : ℕ)
    → Spaces m (c + a) n
    → i ≤ n
    → n < i + r
    → skip_spaces m c (a + i) r ≡ some (a + n)
unfolding skip_spaces
skip_spaces_lem m c a n i zero s h f = absurd (omega (arith, h, f))
skip_spaces_lem m c a n i (suc r) s h f = elim (ℕ_discrete i n) [
  | yes at ↦
      let here : c + (a + i) ≡ c + a + n = omega (arith, at) in
      let done : (m (c + (a + i)) == 32) ≡ false = ground (arith, s.stop, ap m here) in
      rw (skip_spaces, done) (ap (λ k. some (a + k)) at)
  | no ne ↦
      let here : c + (a + i) ≡ c + a + i = omega arith in
      let go_on : (m (c + (a + i)) == 32) ≡ true =
        ground (arith, ap m here ∙ s.space i (omega (arith, h, ne))) in
      let next : a + i + 1 ≡ a + (i + 1) = omega arith in
      rw (skip_spaces, go_on, next)
        (skip_spaces_lem m c a n (i + 1) r s (omega (arith, h, ne)) (omega (arith, f)))
]

rest_of_Word : (m : Mem) (c a n : ℕ) → Word m (c + a) (suc n) → Word m (c + (a + 1)) n
rest_of_Word m c a n w =
    let at : (i : ℕ) → c + a + suc i ≡ c + (a + 1) + i = λ i. omega arith in
    record {
      no_space = λ i l. subst (λ k. m k ≢ 32) (at i) (w.no_space (suc i) (omega (arith, l)));
      no_end = λ i l. subst (λ k. m k ≢ 0) (at i) (w.no_end (suc i) (omega (arith, l)));
      stop = subst (λ k. (m k ≡ 32) ⊎ (m k ≡ 0)) (at n) w.stop;
    }

rest_of_args : (m : Mem) (c a n : ℕ) → EndsAt m (c + a) (suc n) → EndsAt m (c + (a + 1)) n
rest_of_args m c a n e =
    let at : (i : ℕ) → c + a + suc i ≡ c + (a + 1) + i = λ i. omega arith in
    record {
      nonzero = λ i l. subst (λ k. m k ≢ 0) (at i) (e.nonzero (suc i) (omega (arith, l)));
      ended = subst (λ k. m k ≡ 0) (at n) e.ended;
    }

filename_lem :
    (m : Mem) (c a n r : ℕ)
    → Word m (c + a) n
    → n < r
    → filename_from m c a r ≡ some (bytes m (c + a) n, a + n)
unfolding filename_from bytes
filename_lem m c a n zero w h = absurd (omega (arith, h))
filename_lem m c a zero (suc r) w h =
    let here : c + a + 0 ≡ c + a = omega arith in
    let done : (m (c + a) == 32 || m (c + a) == 0) ≡ true =
      ground (arith, subst (λ k. (m k ≡ 32) ⊎ (m k ≡ 0)) here w.stop) in
    rw (filename_from, done) (ap (λ k. some ([], k)) (omega arith))
filename_lem m c a (suc n) (suc r) w h =
    let here : c + a + 0 ≡ c + a = omega arith in
    let go_on : (m (c + a) == 32 || m (c + a) == 0) ≡ false = ground (
      arith,
      subst (λ k. m k ≢ 32) here (w.no_space 0 (omega arith)),
      subst (λ k. m k ≢ 0) here (w.no_end 0 (omega arith)),
    ) in
    let rest = filename_lem m c (a + 1) n r (rest_of_Word m c a n w) (omega (arith, h)) in
    let start : c + (a + 1) ≡ c + a + 1 = omega arith in
    let end : a + 1 + n ≡ a + suc n = omega arith in
    rw (filename_from, go_on, rest) (λ t. some (m (c + a) ∷ bytes m (start t) n, end t))

-- More than 32 characters without a space or a NUL are no filename.
filename_long :
    (m : Mem) (c a r : ℕ)
    → ((i : ℕ) → i < r → (m (c + a + i) ≢ 32) × (m (c + a + i) ≢ 0))
    → filename_from m c a r ≡ none
unfolding filename_from
filename_long m c a zero h = refl
filename_long m c a (suc r) h =
    let here : c + a + 0 ≡ c + a = omega arith in
    let go_on : (m (c + a) == 32 || m (c + a) == 0) ≡ false = ground (
      arith,
      subst (λ k. m k ≢ 32) here (h 0 (omega arith)).0,
      subst (λ k. m k ≢ 0) here (h 0 (omega arith)).1,
    ) in
    let rest = filename_long m c (a + 1) r (λ i l.
      let at : c + a + suc i ≡ c + (a + 1) + i = omega arith in
      subst (λ k. (m k ≢ 32) × (m k ≢ 0)) at (h (suc i) (omega (arith, l)))) in
    rw (filename_from, go_on, rest) refl

args_lem :
    (m : Mem) (c a n r : ℕ)
    → EndsAt m (c + a) n
    → n < r
    → args_from m c a r ≡ some (bytes m (c + a) n)
unfolding args_from bytes
args_lem m c a n zero e h = absurd (omega (arith, h))
args_lem m c a zero (suc r) e h =
    let here : c + a + 0 ≡ c + a = omega arith in
    let done : (m (c + a) == 0) ≡ true = ground (arith, subst (λ k. m k ≡ 0) here e.ended) in
    rw (args_from, done) refl
args_lem m c a (suc n) (suc r) e h =
    let here : c + a + 0 ≡ c + a = omega arith in
    let go_on : (m (c + a) == 0) ≡ false =
      ground (arith, subst (λ k. m k ≢ 0) here (e.nonzero 0 (omega arith))) in
    let rest = args_lem m c (a + 1) n r (rest_of_args m c a n e) (omega (arith, h)) in
    let start : c + (a + 1) ≡ c + a + 1 = omega arith in
    rw (args_from, go_on, rest) (ap (λ k. some (m (c + a) ∷ bytes m k n)) start)

-- A command line: spaces, a name of n characters, spaces, and arguments of k characters.
pub record CommandLine (m : Mem) (c lead n gap k : ℕ) : Type 0 where
  pub leading : Spaces m c lead
  pub name : Word m (c + lead) n
  pub between : Spaces m (c + (lead + n)) gap
  pub args : EndsAt m (c + (lead + n + gap)) k
  pub lead_in : lead < 2 ^ 32
  pub gap_in : gap < 2 ^ 32

-- What the parsed command is, where the file is looked for.
pub found_program : Option ℕ → List ℕ → Command
found_program none args = invalid
found_program (some inode) args = program inode args

-- The loops over spaces, from the start of a run of them.
skipped : (m : Mem) (c a n r : ℕ) → Spaces m (c + a) n → n < r → skip_spaces m c a r ≡ some (a + n)
skipped m c a n r s h =
    let start : a + 0 ≡ a = omega arith in
    subst (λ k. skip_spaces m c k r ≡ some (a + n)) start
      (skip_spaces_lem m c a n 0 r s (omega arith) (omega (arith, h)))

parse_found :
    (fs : Image) (m : Mem) (c i j k r q : ℕ) (name : List ℕ)
    → skip_spaces m c i r ≡ some j
    → args_from m c j q ≡ some (bytes m (c + j) k)
    → parse_rest r q fs m c name i
      ≡ some (found_program (find_executable fs name) (bytes m (c + j) k))
unfolding parse_rest found_program
parse_found fs m c i j k r q name skip args = elim (Option-cases (find_executable fs name)) [
  | inl missing ↦ rw (parse_rest, skip, args, missing) refl
  | inr (inode, there) ↦ rw (parse_rest, skip, args, there) refl
]

parse_with-CommandLine :
    (fs : Image) (m : Mem) (c lead n gap k r p q : ℕ)
    → CommandLine m c lead n gap k
    → (lead < r) × (gap < r)
    → n < p
    → k < q
    → parse_with r p q fs m c
      ≡ some (
          found_program
            (find_executable fs (bytes m (c + lead) n))
            (bytes m (c + (lead + n + gap)) k))
unfolding parse_with
parse_with-CommandLine fs m c lead n gap k r p q l (hl, hg) hn hk =
    let zero_at : c ≡ c + 0 = omega arith in
    let first : skip_spaces m c 0 r ≡ some lead =
      skipped m c 0 lead r (subst (λ a. Spaces m a lead) zero_at l.leading) hl
      ∙ ap some (omega arith) in
    let name = filename_lem m c lead n p l.name hn in
    let second = skipped m c (lead + n) gap r l.between hg in
    let args = args_lem m c (lead + n + gap) k q l.args hk in
    rw (parse_with, first, name)
      (parse_found fs m c (lead + n) (lead + n + gap) k r q (bytes m (c + lead) n) second args)

-- A command line whose name has at most 32 characters, and whose arguments have at most 1023,
-- gives the executable file of that name and those arguments, without the spaces before the name
-- and before the arguments; it is invalid if there is no such file.
pub parse_cmd-CommandLine :
    (fs : Image) (m : Mem) (c lead n gap k : ℕ)
    → CommandLine m c lead n gap k
    → n ≤ 32
    → k < 1024
    → parse_cmd fs m c
      ≡ some (
          found_program
            (find_executable fs (bytes m (c + lead) n))
            (bytes m (c + (lead + n + gap)) k))
unfolding parse_cmd
parse_cmd-CommandLine fs m c lead n gap k l hn hk =
    parse_with-CommandLine fs m c lead n gap k string_rounds 33 1024 l (l.lead_in, l.gap_in)
      (omega (arith, hn)) hk

parse_with_long :
    (fs : Image) (m : Mem) (c lead r p q : ℕ)
    → Spaces m c lead
    → lead < r
    → ((i : ℕ) → i < p → (m (c + lead + i) ≢ 32) × (m (c + lead + i) ≢ 0))
    → parse_with r p q fs m c ≡ some invalid
unfolding parse_with
parse_with_long fs m c lead r p q s h long =
    let zero_at : c ≡ c + 0 = omega arith in
    let first : skip_spaces m c 0 r ≡ some lead =
      skipped m c 0 lead r (subst (λ a. Spaces m a lead) zero_at s) h ∙ ap some (omega arith) in
    rw (parse_with, first, filename_long m c lead p long) refl

-- A name of more than 32 characters is invalid, whatever follows.
pub parse_cmd_long :
    (fs : Image) (m : Mem) (c lead : ℕ)
    → Spaces m c lead
    → lead < 2 ^ 32
    → ((i : ℕ) → i < 33 → (m (c + lead + i) ≢ 32) × (m (c + lead + i) ≢ 0))
    → parse_cmd fs m c ≡ some invalid
unfolding parse_cmd
parse_cmd_long fs m c lead s h long = parse_with_long fs m c lead string_rounds 33 1024 s h long
