-- ===== src/Process/Loader/Loaded.antt =====
-- What the user page holds after process_load_exe of student-distrib/process.c.
use loli_os.Prelude.{
  ℕ, zero, suc, ◌+◌, ◌-◌, ◌*◌, ◌≤◌, ◌<◌, min, ◌≡◌, refl, sym, ap, subst, ◌∙◌, ◌⊎◌, inl, inr, true,
  false, ◌&&◌, ◌||◌, Option, none, some, arith, dec_lt, ltb, leb, ◌==◌, if◌then◌else◌, length,
  add_u32, sub_u32,
}
use loli_os.Memory.{user_page_start, user_page_end}
use loli_os.Memory.Bytes.{Mem, bytes, store, length-bytes, bytes_ext}
use loli_os.Memory.Words.{word_of, word_at, store_at, store_outside, get_or-bytes}
use loli_os.MemOps.{memset}
use loli_os.MemOps.Fill.{Filled, memset-Filled}
use loli_os.FileSystem.{Image, Inode, read_data}
use loli_os.FileSystem.Spec.{file_byte, contents}
use loli_os.FileSystem.ReadData.{read_data_lem}
use loli_os.Process.Loader.{
  process_vaddr, chunk_size, load_rounds, load_chunks, clear_around, load_end, load_with, load_exe,
}

-- A file that is in the image and fits the user page from PROCESS_VADDR on.
pub record Loadable (fs : Image) (inode : ℕ) : Type 0 where
  pub inode_in : inode < fs.inode_count
  pub fits : (fs.inode inode).size ≤ 0x3B8000

-- The first o bytes of the file stand from PROCESS_VADDR on, and nothing else has changed.
record Loading (fs : Image) (inode : ℕ) (m l : Mem) (o : ℕ) : Type 0 where
  chars : (i : ℕ) → i < o → l (process_vaddr + i) ≡ file_byte fs (fs.inode inode) i
  other : (p : ℕ) → (p < process_vaddr) ⊎ (process_vaddr + o ≤ p) → l p ≡ m p

-- A chunk of the file.
chunk :
    (fs : Image) (inode o : ℕ)
    → Loadable fs inode
    → o ≤ (fs.inode inode).size
    → read_data fs inode o chunk_size
      ≡ some (
        min 4096 ((fs.inode inode).size - o),
        contents fs (fs.inode inode) o (min 4096 ((fs.inode inode).size - o)),
      )
chunk fs inode o f h =
    let size = (fs.inode inode).size in
    let valid : (leb fs.inode_count inode || ltb size o) ≡ false = ground (arith, f.inode_in, h) in
    read_data_lem fs inode o 4096 (omega (arith, f.fits)) (omega arith)
    ∙ ap
        (λ b.
          if b
          then none
          else some (min 4096 (size - o), contents fs (fs.inode inode) o (min 4096 (size - o))))
        valid

Loading-step :
    (fs : Image) (inode : ℕ) (m l : Mem) (o n : ℕ)
    → Loading fs inode m l o
    → Loading fs inode m (store l (process_vaddr + o) (contents fs (fs.inode inode) o n)) (o + n)
unfolding contents
Loading-step fs inode m l o n g =
    let file = file_byte fs (fs.inode inode) in
    let xs = bytes file o n in
    let len : length xs ≡ n = length-bytes file o n in
    record {
      chars = λ i h. elim (dec_lt i o) [
        | yes old ↦
            store_outside l (process_vaddr + o) (process_vaddr + i) xs (inl (omega (arith, old)))
            ∙ g.chars i old
        | no new ↦
            let here : process_vaddr + i ≡ process_vaddr + o + (i - o) = omega (arith, new) in
            let place : o + (i - o) ≡ i = omega (arith, new) in
            ap (store l (process_vaddr + o) xs) here
            ∙ store_at l (process_vaddr + o) xs (i - o) (omega (arith, len, h, new))
            ∙ get_or-bytes file o n (i - o) (omega (arith, h, new))
            ∙ ap file place
      ];
      other = λ p h.
          store_outside l (process_vaddr + o) p xs (omega (arith, len, h))
          ∙ g.other p (omega (arith, h));
    }

load_chunks-Loading :
    (fs : Image) (inode : ℕ) (m l : Mem) (o n : ℕ)
    → Loadable fs inode
    → o ≤ (fs.inode inode).size
    → (fs.inode inode).size + 4096 ≤ o + 4096 * n
    → Loading fs inode m l o
    → (l' : Mem) × (load_chunks fs inode l o n ≡ some (l', (fs.inode inode).size))
      × Loading fs inode m l' (fs.inode inode).size
unfolding load_chunks
load_chunks-Loading fs inode m l o zero f h fuel g = absurd (omega (arith, h, fuel))
load_chunks-Loading fs inode m l o (suc n) f h fuel g =
    let size = (fs.inode inode).size in
    let c = min 4096 (size - o) in
    let read = chunk fs inode o f h in
    let at : add_u32 process_vaddr o ≡ process_vaddr + o = omega (arith, f.fits, h) in
    let next : add_u32 o c ≡ o + c = omega (arith, f.fits, h) in
    let l1 = store l (process_vaddr + o) (contents fs (fs.inode inode) o c) in
    let stepped : Loading fs inode m l1 (o + c) = Loading-step fs inode m l o c g in
    elim (dec_lt o size) [
      | no end ↦
          let stop : (c == 0) ≡ true = ground (arith, h, end) in
          let whole : o + c ≡ size = omega (arith, h, end) in
          (
            l1,
            rw (load_chunks, read, at, next, stop) (ap (λ k. some (l1, k)) whole),
            subst (Loading fs inode m l1) whole stepped,
          )
      | yes more ↦
          let go_on : (c == 0) ≡ false = ground (arith, more) in
          let round : load_chunks fs inode l o (suc n) ≡ load_chunks fs inode l1 (o + c) n =
            rw (load_chunks, read, at, next, go_on) refl in
          let (l', ok, done) =
            load_chunks-Loading fs inode m l1 (o + c) n f (omega (arith, h))
              (omega (arith, fuel, more, h)) stepped in
          (l', round ∙ ok, done)
    ]

-- The user page that a program starts with: the file from PROCESS_VADDR on, and zeros around it.
abbrev pub program_page : Image → Inode → Mem
program_page fs ip p =
    if leb process_vaddr p && ltb p (process_vaddr + ip.size)
    then file_byte fs ip (p - process_vaddr)
    else 0

-- The user page, once it is filled, and what is around it.
abbrev pub with_program : Image → Inode → Mem → Mem
with_program fs ip m p =
    if leb user_page_start p && ltb p user_page_end then program_page fs ip p else m p

-- The three parts of the page that the memory l and the two fills give.
three_parts :
    (fs : Image) (inode : ℕ) (m l : Mem) (p : ℕ)
    → Loadable fs inode
    → Loading fs inode m l (fs.inode inode).size
    → (let size = (fs.inode inode).size in
        if leb (process_vaddr + size) p && ltb p (process_vaddr + size + (0x3B8000 - size))
        then 0
        else if leb user_page_start p && ltb p (user_page_start + 0x48000)
        then 0
        else l p)
      ≡ with_program fs (fs.inode inode) m p
three_parts fs inode m l p f g = elim (dec_lt p process_vaddr) [
  | yes low ↦ ground (arith, low, g.other p (inl low))
  | no high ↦ elim (dec_lt p (process_vaddr + (fs.inode inode).size)) [
    | no behind ↦ ground (arith, high, behind, f.fits, g.other p (inr (omega (arith, behind))))
    | yes inside ↦
        let place : process_vaddr + (p - process_vaddr) ≡ p = omega (arith, high) in
        let char : l p ≡ file_byte fs (fs.inode inode) (p - process_vaddr) =
          ap l (sym place) ∙ g.chars (p - process_vaddr) (omega (arith, high, inside)) in
        ground (arith, high, inside, f.fits, char)
  ]
]

clear_around-Loading :
    (fs : Image) (inode : ℕ) (m l : Mem) (p : ℕ)
    → Loadable fs inode
    → Loading fs inode m l (fs.inode inode).size
    → clear_around l (fs.inode inode).size p ≡ with_program fs (fs.inode inode) m p
unfolding clear_around
clear_around-Loading fs inode m l p f g =
    let size = (fs.inode inode).size in
    let at : add_u32 process_vaddr size ≡ process_vaddr + size = omega (arith, f.fits) in
    let tail : sub_u32 (sub_u32 user_page_end process_vaddr) size ≡ 0x3B8000 - size =
      omega (arith, f.fits) in
    let head = memset l user_page_start 0 0x48000 in
    let head_at : Filled l user_page_start 0 0x48000 head =
      memset-Filled l user_page_start 0 0x48000 (omega arith) in
    let tail_at =
      memset-Filled head (process_vaddr + size) 0 (0x3B8000 - size) (omega (arith, f.fits)) in
    (λ t. memset head (at t) 0 (tail t) p)
    ∙ tail_at p
    ∙ ap
        (λ x.
          if leb (process_vaddr + size) p && ltb p (process_vaddr + size + (0x3B8000 - size))
          then 0
          else x)
        (head_at p)
    ∙ three_parts fs inode m l p f g

-- What process_load_exe does: the user page holds the program and nothing else, what is around it is
-- unchanged, and the entry point is the word at bytes 24 to 27 of the file.
abbrev pub Loaded : Image → ℕ → Mem → Option (Mem × ℕ) → Type 0
Loaded fs inode m result =
    (l : Mem) × (result ≡ some (l, word_of (contents fs (fs.inode inode) 24 4)))
    × ((p : ℕ) → l p ≡ with_program fs (fs.inode inode) m p)

entry_at :
    (fs : Image) (inode : ℕ) (m l : Mem)
    → 28 ≤ (fs.inode inode).size
    → ((p : ℕ) → l p ≡ with_program fs (fs.inode inode) m p)
    → word_at l (process_vaddr + 24) ≡ word_of (contents fs (fs.inode inode) 24 4)
unfolding contents
entry_at fs inode m l h page =
    let ip = fs.inode inode in
    ap word_of (
      bytes_ext l (file_byte fs ip) (process_vaddr + 24) 24 4 (λ i hi.
        page (process_vaddr + 24 + i)
        ∙ (let back : process_vaddr + 24 + i - process_vaddr ≡ 24 + i = omega arith in
            ground (arith, h, hi, ap (file_byte fs ip) back))))

load_end-some :
    (l : Mem) (o : ℕ)
    → load_end (some (l, o))
      ≡ some (clear_around l o, word_at (clear_around l o) (process_vaddr + 24))
unfolding load_end
load_end-some l o = refl

load_with-Loaded :
    (fs : Image) (inode : ℕ) (m : Mem) (n : ℕ)
    → Loadable fs inode
    → 28 ≤ (fs.inode inode).size
    → (fs.inode inode).size + 4096 ≤ 4096 * n
    → Loaded fs inode m (load_with n fs inode m)
unfolding load_with
load_with-Loaded fs inode m n f h fuel =
    let size = (fs.inode inode).size in
    let none_yet : Loading fs inode m m 0 = record {
      chars = λ i l. absurd (omega (arith, l));
      other = λ p l. refl;
    } in
    let (l, ok, done) =
      load_chunks-Loading fs inode m m 0 n f (omega arith) (omega (arith, fuel)) none_yet in
    let page : (p : ℕ) → clear_around l size p ≡ with_program fs (fs.inode inode) m p =
      λ p. clear_around-Loading fs inode m l p f done in
    (
      clear_around l size,
      ap load_end ok
          ∙ load_end-some l size
          ∙ (ap (λ k. some (clear_around l size, k))
              (entry_at fs inode m (clear_around l size) h page)),
      page,
    )

-- For a file of the image of at least 28 bytes that fits the user page, process_load_exe ends; the
-- user page then holds the file from PROCESS_VADDR on and zeros around it, so nothing of the
-- process before, the memory around the page is unchanged, and the result is the word at offset 24
-- of the file.
pub load_exe-Loaded :
    (fs : Image) (inode : ℕ) (m : Mem)
    → Loadable fs inode
    → 28 ≤ (fs.inode inode).size
    → Loaded fs inode m (load_exe fs inode m)
unfolding load_exe
load_exe-Loaded fs inode m f h = load_with-Loaded fs inode m load_rounds f h (omega (arith, f.fits))
